-- ===== src/Heatmap/Moments.antt =====
-- The keys of the stored heatmaps: (session_id, time, position_mode).
use mathlib.Core.Path.{subst}
use gamma_scope.Prelude.{
  ℕ, String, string_eq, nat_eq, ◌≡◌, ◌↔◌, refl, Bool, true, ◌&&◌, Eq, ◌==◌, arith,
}

-- The time is an instant in the database and its text in memory.
pub record Moment (T : Type 0) : Type 0 where
  pub session_id : String
  pub time : T
  pub position_mode : String

and_true : (a b : Bool) → (a && b) ≡ true → (a ≡ true) × (b ≡ true)
and_true a b h = ground arith

module _ {T : Type 0} ⦃e : Eq T⦄ where
  abbrev pub moment_beq : Moment T → Moment T → Bool
  moment_beq j k =
      j.session_id == k.session_id && j.time == k.time && j.position_mode == k.position_mode

  moment_eq_of_test : (j k : Moment T) → moment_beq j k ≡ true → j ≡ k
  moment_eq_of_test j k h =
      let (h1, c) = and_true _ _ h in
      let (a, b) = and_true _ _ h1 in
      let same_session : j.session_id ≡ k.session_id =
        (string_eq.test_iff j.session_id k.session_id).0 a in
      let same_time : j.time ≡ k.time = (e.test_iff j.time k.time).0 b in
      let same_mode : j.position_mode ≡ k.position_mode =
        (string_eq.test_iff j.position_mode k.position_mode).0 c in
      λ i. record { session_id = same_session i; time = same_time i; position_mode = same_mode i }

  moment_test_self : (k : Moment T) → moment_beq k k ≡ true
  moment_test_self k = ground (
    arith,
    (string_eq.test_iff k.session_id k.session_id).1 refl,
    (e.test_iff k.time k.time).1 refl,
    (string_eq.test_iff k.position_mode k.position_mode).1 refl,
  )

  pub moment_beq_iff : (j k : Moment T) → (moment_beq j k ≡ true) ↔ (j ≡ k)
  moment_beq_iff j k =
      (moment_eq_of_test j k, λ h. subst (λ x. moment_beq j x ≡ true) h (moment_test_self j))

instance abbrev pub instant_key_eq : Eq (Moment ℕ)
instant_key_eq = record { test = moment_beq; test_iff = moment_beq_iff }

instance abbrev pub text_key_eq : Eq (Moment String)
text_key_eq = record { test = moment_beq; test_iff = moment_beq_iff }

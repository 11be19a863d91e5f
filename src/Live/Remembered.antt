-- ===== src/Live/Remembered.antt =====
-- The analytics memory of ingestion/live_snapshot.py.
use mathlib.Core.Path.{subst}
use gamma_scope.Prelude.{
  ℕ, String, string_eq, ◌≡◌, ◌↔◌, refl, Bool, true, false, not, ◌&&◌, Eq, Option, none, some, List,
  ◌==◌, keep, arith, if◌then◌else◌,
}
use gamma_scope.Prelude.Dict.{Dict, get, put}
use gamma_scope.Replay.Reader.Scan.{is_element}

pub record MemoryKey : Type 0 where
  pub session_id : String
  pub contract_id : String

abbrev pub memory_beq : MemoryKey → MemoryKey → Bool
memory_beq j k = j.session_id == k.session_id && j.contract_id == k.contract_id

and_true : (a b : Bool) → (a && b) ≡ true → (a ≡ true) × (b ≡ true)
and_true a b h = ground arith

memory_eq_of_test : (j k : MemoryKey) → memory_beq j k ≡ true → j ≡ k
memory_eq_of_test j k h =
    let (a, b) = and_true _ _ h in
    let same_session : j.session_id ≡ k.session_id =
      (string_eq.test_iff j.session_id k.session_id).0 a in
    let same_contract : j.contract_id ≡ k.contract_id =
      (string_eq.test_iff j.contract_id k.contract_id).0 b in
    λ i. record { session_id = same_session i; contract_id = same_contract i }

memory_test_self : (k : MemoryKey) → memory_beq k k ≡ true
memory_test_self k = ground (
  arith,
  (string_eq.test_iff k.session_id k.session_id).1 refl,
  (string_eq.test_iff k.contract_id k.contract_id).1 refl,
)

pub memory_beq_iff : (j k : MemoryKey) → (memory_beq j k ≡ true) ↔ (j ≡ k)
memory_beq_iff j k =
    (memory_eq_of_test j k, λ h. subst (λ x. memory_beq j x ≡ true) h (memory_test_self j))

instance abbrev pub memory_eq : Eq MemoryKey
memory_eq = record { test = memory_beq; test_iff = memory_beq_iff }

-- A dictionary of the fields `custom_iv`, `custom_gamma` and `custom_vanna`; a float is its bits.
pub record Analytics : Type 0 where
  pub custom_iv : Option ℕ
  pub custom_gamma : Option ℕ
  pub custom_vanna : Option ℕ

abbrev pub Memory : Type 0
Memory = Dict MemoryKey Analytics

abbrev pub no_analytics : Analytics
no_analytics = record { custom_iv = none; custom_gamma = none; custom_vanna = none }

abbrev pub or_value : Option ℕ → Option ℕ → Option ℕ
or_value none b = b
or_value (some x) b = some x

-- The loop that fills the fields that are `None`.
abbrev pub filled : Analytics → Analytics → Analytics
filled a b = record {
  custom_iv = or_value a.custom_iv b.custom_iv;
  custom_gamma = or_value a.custom_gamma b.custom_gamma;
  custom_vanna = or_value a.custom_vanna b.custom_vanna;
}

abbrev pub is_missing : Option ℕ → Bool
is_missing none = true
is_missing (some x) = false

abbrev pub is_empty : Analytics → Bool
is_empty a = is_missing a.custom_iv && is_missing a.custom_gamma && is_missing a.custom_vanna

abbrev pub previous : Option Analytics → Analytics
previous none = no_analytics
previous (some a) = a

-- `_apply_analytics_memory`: the values of the row, and the memory.
unfoldable pub apply_memory : String → String → Analytics → Analytics → Memory → Analytics × Memory
apply_memory session_id contract_id computed fallback m =
    let key : MemoryKey = record { session_id = session_id; contract_id = contract_id } in
    let values = filled (filled computed (previous (get key m))) fallback in
    (values, if is_empty values then m else put key values m)

-- `_prune_analytics_memory`
unfoldable pub prune_memory : String → List String → Memory → Memory
prune_memory session_id active m =
    keep (λ e. not (e.0.session_id == session_id && not (is_element e.0.contract_id active))) m

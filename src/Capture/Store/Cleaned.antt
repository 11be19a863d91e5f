-- ===== src/Capture/Store/Cleaned.antt =====
-- `cleanup_before` of replay/repository.py: what it deletes and what it reports.
use gamma_scope.Prelude.{
  ℕ, ◌<◌, ◌↔◌, String, string_eq, ◌≡◌, ◌≢◌, refl, Bool, true, false, not, ◌&&◌, Option, none, some,
  List, [], ◌∷◌, All, ltb, leb, ltb→lt, lt→ltb, arith,
}
use gamma_scope.Prelude.Deleted.{Deleted, keep-Deleted}
use gamma_scope.Replay.Effects.{joined}
use gamma_scope.Capture.Store.{
  SnapshotRow, Session, Store, times_of, any_time, is_in_scope, is_expired, is_ended,
  cleanup_counts, delete_expired, cleanup_before,
}

-- The sessions with the prefix, if one is given.
abbrev pub HasPrefix : (String → String → Bool) → Option String → String → Type 0
HasPrefix like none session_id = Unit
HasPrefix like (some prefix) session_id = like session_id (joined (prefix ∷ "%" ∷ [])) ≡ true

module _ (like : String → String → Bool) (prefix : Option String) (cutoff : ℕ) where
  abbrev pub IsExpired : ℕ × SnapshotRow → Type 0
  IsExpired (id, row) = (row.snapshot_time < cutoff) × HasPrefix like prefix row.session_id

  -- A session that has snapshots, all of them before the cutoff.
  abbrev pub IsEnded : Store → String × Session → Type 0
  IsEnded t (session_id, row) =
      (times_of session_id t.snapshots ≢ [])
      × All (λ at. at < cutoff) (times_of session_id t.snapshots)
      × HasPrefix like prefix session_id

is_in_scope_iff :
    (like : String → String → Bool) (prefix : Option String) (session_id : String)
    → (is_in_scope like prefix session_id ≡ true) ↔ HasPrefix like prefix session_id
is_in_scope_iff like none session_id = ((λ h. tt), λ h. refl)
is_in_scope_iff like (some prefix) session_id = ((λ h. h), λ h. h)

none_late :
    (cutoff : ℕ) (times : List ℕ)
    → (not (any_time (λ t. leb cutoff t) times) ≡ true) ↔ All (λ at. at < cutoff) times
none_late cutoff [] = ((λ h. tt), λ h. refl)
none_late cutoff (at ∷ times) = ground (arith, none_late cutoff times)

some_early :
    (cutoff : ℕ) (times : List ℕ)
    → times ≢ []
    → All (λ at. at < cutoff) times
    → any_time (λ t. ltb t cutoff) times ≡ true
some_early cutoff [] n h = absurd (n refl)
some_early cutoff (at ∷ times) n h = ground (arith, h.0)

nonempty : (f : ℕ → Bool) (times : List ℕ) → any_time f times ≡ true → times ≢ []
nonempty f [] h e = absurd (cc)
nonempty f (at ∷ times) h e = absurd (cc)

all_three : (a b c : Bool) → (a && b && c) ≡ true → (a ≡ true) × (b ≡ true) × (c ≡ true)
all_three true true true h = (refl, refl, refl)
all_three true true false h = absurd (cc)
all_three true false c h = absurd (cc)
all_three false b c h = absurd (cc)

both : (a b : Bool) → (a && b) ≡ true → (a ≡ true) × (b ≡ true)
both true true h = (refl, refl)
both true false h = absurd (cc)
both false b h = absurd (cc)

module _ (like : String → String → Bool) (prefix : Option String) (cutoff : ℕ) where
  is_expired_iff :
      (e : ℕ × SnapshotRow)
      → (is_expired (is_in_scope like prefix) cutoff e ≡ true) ↔ IsExpired like prefix cutoff e
  is_expired_iff (id, row) =
      let scope = is_in_scope_iff like prefix row.session_id in
      (
        (λ h.
            let (early, named) = both (ltb row.snapshot_time cutoff) _ h in
            (ltb→lt _ _ early, scope.0 named)),
        λ h. rw (lt→ltb _ _ h.0, scope.1 h.1) refl,
      )

  is_ended_iff :
      (t : Store) (e : String × Session)
      → (is_ended (is_in_scope like prefix) cutoff t.snapshots e ≡ true)
        ↔ IsEnded like prefix cutoff t e
  is_ended_iff t (session_id, row) =
      let times = times_of session_id t.snapshots in
      let scope = is_in_scope_iff like prefix session_id in
      let late = none_late cutoff times in
      (
        (λ h.
            let (early, none_is, named) = all_three (any_time (λ t. ltb t cutoff) times) _ _ h in
            (nonempty _ times early, late.0 none_is, scope.0 named)),
        λ h. rw (some_early cutoff times h.0 h.1, late.1 h.1, scope.1 h.2) refl,
      )

  -- A cleanup deletes exactly the snapshots that were taken before the cutoff in a session with
  -- the prefix, if one is given, and leaves the others in their order; it reports how many these
  -- were, and the number of the sessions with the prefix that had snapshots, all of them before
  -- the cutoff. A dry run reports the same counts and changes nothing.
  pub cleanup_before_counts :
      (t : Store)
      → Deleted
          (IsExpired like prefix cutoff)
          t.snapshots
          (cleanup_before like cutoff false prefix t).0.snapshots
          (cleanup_before like cutoff false prefix t).1.snapshots
        × ((rest : List (String × Session)) × Deleted
              (IsEnded like prefix cutoff t)
              t.sessions
              (cleanup_before like cutoff false prefix t).0.sessions
              rest)
        × (cleanup_before like cutoff true prefix t
            ≡ ((cleanup_before like cutoff false prefix t).0, t))
  unfolding cleanup_before cleanup_counts delete_expired
  cleanup_before_counts t = (
    keep-Deleted (IsExpired like prefix cutoff) (is_expired (is_in_scope like prefix) cutoff)
        t.snapshots is_expired_iff,
    (
      _,
      keep-Deleted (IsEnded like prefix cutoff t)
          (is_ended (is_in_scope like prefix) cutoff t.snapshots) t.sessions (is_ended_iff t),
    ),
    refl,
  )

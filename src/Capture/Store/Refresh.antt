-- ===== src/Capture/Store/Refresh.antt =====
-- `_refresh_session` of replay/repository.py, against the aggregate over the session's snapshots.
use mathlib.Core.Path.{subst}
use gamma_scope.Prelude.{
  ℕ, String, string_eq, ◌≡◌, refl, sym, ◌∙◌, ap, true, false, Option, none, some, List, [], ◌∷◌,
  arith, ◌==◌, inl, inr, if◌then◌else◌, Bool-cases, Option-cases,
}
use gamma_scope.Prelude.Dict.{Dict, get, get-put, get-put_self}
use gamma_scope.Capture.Store.{
  SnapshotRow, Session, times_of, aggregate, remove, refreshed_by, refresh_session, refresh_all,
  is_in, distinct,
}

-- The columns that are computed from the snapshots.
abbrev pub span : Option Session → Option (ℕ × ℕ × ℕ)
span none = none
span (some row) = some (row.start_time, row.end_time, row.snapshot_count)

-- The session's row tells the times and the number of its snapshots; there is none without.
abbrev pub Fits : Dict ℕ SnapshotRow → Dict String Session → String → Type 0
Fits snapshots sessions k = span (get k sessions) ≡ aggregate (times_of k snapshots)

-- A session with snapshots has a row.
abbrev pub Known : Dict ℕ SnapshotRow → Dict String Session → String → Type 0
Known snapshots sessions k = get k sessions ≡ none → aggregate (times_of k snapshots) ≡ none

pub get-remove :
    (k j : String) (d : Dict String Session)
    → get j (remove k d) ≡ (if k == j then none else get j d)
unfolding get remove
get-remove k j [] = ground arith
get-remove k j ((i, v) ∷ d) = ground (
  arith,
  string_eq.test_iff k j,
  string_eq.test_iff i k,
  string_eq.test_iff i j,
  get-remove k j d,
)

refreshed_by-other :
    (a : Option (ℕ × ℕ × ℕ)) (k j : String) (d : Dict String Session)
    → (k == j) ≡ false
    → get j (refreshed_by a k d) ≡ get j d
refreshed_by-other none k j d h = get-remove k j d ∙ rw h refl
refreshed_by-other (some (s, e, n)) k j d h = elim (Option-cases (get k d)) [
  | inl missing ↦ rw missing refl
  | inr (row, found) ↦ rw found (get-put k j _ d ∙ rw h refl)
]

refreshed_by_self :
    (a : Option (ℕ × ℕ × ℕ)) (k : String) (d : Dict String Session)
    → (get k d ≡ none → a ≡ none)
    → span (get k (refreshed_by a k d)) ≡ a
refreshed_by_self none k d h =
    let same : (k == k) ≡ true = (string_eq.test_iff k k).1 refl in
    let gone : get k (remove k d) ≡ none = get-remove k k d ∙ rw same refl in ap span gone
refreshed_by_self (some (s, e, n)) k d h = elim (Option-cases (get k d)) [
  | inl missing ↦ absurd (cc (h missing))
  | inr (row, found) ↦ rw found (ap span (get-put_self k _ d))
]

module _ (snapshots : Dict ℕ SnapshotRow) where
  pub refresh_session-other :
      (k j : String) (d : Dict String Session)
      → (k == j) ≡ false
      → get j (refresh_session snapshots k d) ≡ get j d
  unfolding refresh_session
  refresh_session-other k j d h = refreshed_by-other (aggregate (times_of k snapshots)) k j d h

  pub refresh_session_self :
      (k : String) (d : Dict String Session)
      → Known snapshots d k
      → Fits snapshots (refresh_session snapshots k d) k
  unfolding refresh_session
  refresh_session_self k d h = refreshed_by_self (aggregate (times_of k snapshots)) k d h

  pub Known-Fits : (d : Dict String Session) (k : String) → Fits snapshots d k → Known snapshots d k
  Known-Fits d k h missing = sym h ∙ ap span missing

  pub refresh_session-Fits :
      (k j : String) (d : Dict String Session)
      → Fits snapshots d j
      → Fits snapshots (refresh_session snapshots k d) j
  refresh_session-Fits k j d h = elim (Bool-cases (k == j)) [
    | inl same ↦
        let e = (string_eq.test_iff k j).0 same in
        subst (λ i. Fits snapshots (refresh_session snapshots i d) j) (sym e)
          (refresh_session_self j d (Known-Fits d j h))
    | inr other ↦ ap span (refresh_session-other k j d other) ∙ h
  ]

  pub refresh_session-Known :
      (k j : String) (d : Dict String Session)
      → Known snapshots d j
      → Known snapshots (refresh_session snapshots k d) j
  refresh_session-Known k j d h = elim (Bool-cases (k == j)) [
    | inl same ↦
        let e = (string_eq.test_iff k j).0 same in
        Known-Fits (refresh_session snapshots k d) j (
          subst (λ i. Fits snapshots (refresh_session snapshots i d) j) (sym e)
            (refresh_session_self j d h))
    | inr other ↦ λ missing. h (sym (refresh_session-other k j d other) ∙ missing)
  ]

  pub refresh_all-Fits :
      (ks : List String) (j : String) (d : Dict String Session)
      → Fits snapshots d j
      → Fits snapshots (refresh_all snapshots ks d) j
  unfolding refresh_all
  refresh_all-Fits [] j d h = h
  refresh_all-Fits (k ∷ ks) j d h =
      refresh_all-Fits ks j (refresh_session snapshots k d) (refresh_session-Fits k j d h)

  -- Every session that is refreshed fits.
  pub refresh_all_self :
      (ks : List String) (j : String) (d : Dict String Session)
      → is_in j ks ≡ true
      → Known snapshots d j
      → Fits snapshots (refresh_all snapshots ks d) j
  unfolding refresh_all
  refresh_all_self [] j d h known = absurd (cc)
  refresh_all_self (k ∷ ks) j d h known = elim (Bool-cases (k == j)) [
    | inl same ↦
        let e = (string_eq.test_iff k j).0 same in
        refresh_all-Fits ks j (refresh_session snapshots k d) (
          subst (λ i. Fits snapshots (refresh_session snapshots i d) j) (sym e)
            (refresh_session_self j d known))
    | inr other ↦
        refresh_all_self ks j (refresh_session snapshots k d) (rw other at h)
          (refresh_session-Known k j d known)
  ]

pub is_in-distinct : (k : String) (ks : List String) → is_in k (distinct ks) ≡ is_in k ks
is_in-distinct k [] = refl
is_in-distinct k (j ∷ ks) = ground (arith, is_in-distinct k ks, string_eq.test_iff j k)

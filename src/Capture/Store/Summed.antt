-- ===== src/Capture/Store/Summed.antt =====
-- The session rows of replay/repository.py against their snapshots, for insertions and updates.
use mathlib.Core.Path.{subst}
use gamma_scope.Prelude.{
  ℕ, String, string_eq, nat_eq, ◌≡◌, ◌≢◌, refl, sym, ◌∙◌, ap, true, false, Option, none, some, List,
  [], ◌∷◌, ◌++◌, arith, ◌==◌, inl, inr, Bool-cases, Option-cases,
}
use gamma_scope.Prelude.Dict.{Dict, get, put, get-put, get-put_self}
use gamma_scope.Replay.Effects.{ok, Platform, transact}
use gamma_scope.Capture.Store.{
  Snapshot, SnapshotRow, Session, Store, row_of, times_of, aggregate, upserted, upsert_session,
  refresh_session, refresh_left, store_snapshot, insert_snapshot, replace_snapshot, update_snapshot,
  normalized_snapshot,
}
use gamma_scope.Capture.Store.Refresh.{
  span, Fits, Known, refresh_session-other, refresh_session_self, Known-Fits, refresh_session-Known,
}

-- Every row of `replay_sessions` tells the first and the last time and the number of the session's
-- snapshots, and exactly the sessions with snapshots have a row.
abbrev pub IsSummed : Store → Type 0
IsSummed t = (k : String) → Fits t.snapshots t.sessions k

-- The upsert leaves the other sessions, and makes its own known.
module _ (s : Snapshot) (source : String) (at : ℕ) (d : Dict String Session) where
  upsert-other :
      (k : String) → (s.session_id == k) ≡ false → get k (upsert_session s source at d) ≡ get k d
  unfolding upsert_session
  upsert-other k h = get-put s.session_id k _ d ∙ rw h refl

  upsert_self :
      get s.session_id (upsert_session s source at d)
      ≡ some (upserted s source at (get s.session_id d))
  unfolding upsert_session
  upsert_self = get-put_self s.session_id _ d

  upsert-Known :
      (snapshots : Dict ℕ SnapshotRow) → Known snapshots (upsert_session s source at d) s.session_id
  upsert-Known snapshots missing = absurd (cc (upsert_self, missing))

  -- A known session stays known.
  upsert-keeps_Known :
      (snapshots : Dict ℕ SnapshotRow) (k : String)
      → Known snapshots d k
      → Known snapshots (upsert_session s source at d) k
  upsert-keeps_Known snapshots k h = elim (Bool-cases (s.session_id == k)) [
    | inl same ↦
        subst (Known snapshots (upsert_session s source at d))
          ((string_eq.test_iff s.session_id k).0 same) (upsert-Known snapshots)
    | inr other ↦ λ missing. h (sym (upsert-other k other) ∙ missing)
  ]

times_of-append :
    (k : String) (id : ℕ) (row : SnapshotRow) (snapshots : Dict ℕ SnapshotRow)
    → (row.session_id == k) ≡ false
    → times_of k (snapshots ++ (id, row) ∷ []) ≡ times_of k snapshots
unfolding times_of
times_of-append k id row [] h = ground arith
times_of-append k id row ((i, r) ∷ snapshots) h =
    let e = times_of-append k id row snapshots h in rw e refl

-- A snapshot that is replaced counts for its old session and its new one only.
times_of-put :
    (k : String) (id : ℕ) (old row : SnapshotRow) (snapshots : Dict ℕ SnapshotRow)
    → get id snapshots ≡ some old
    → (old.session_id == k) ≡ false
    → (row.session_id == k) ≡ false
    → times_of k (put id row snapshots) ≡ times_of k snapshots
unfolding times_of get put
times_of-put k id old row [] found h h' = absurd (ground arith)
times_of-put k id old row ((i, r) ∷ snapshots) found h h' = elim (Bool-cases (i == id)) [
  | inl e ↦ let one : r ≡ old = cc (rw e at found) in rw (e, h', one, h) refl
  | inr e ↦ let rest = times_of-put k id old row snapshots (rw e at found) h h' in rw (e, rest) refl
]

pub aggregate-none : (ts : List ℕ) → aggregate ts ≡ none → ts ≡ []
aggregate-none [] h = refl
aggregate-none (t ∷ ts) h = absurd (cc)

-- A session with a snapshot has times.
times_of-get :
    (id : ℕ) (row : SnapshotRow) (snapshots : Dict ℕ SnapshotRow)
    → get id snapshots ≡ some row
    → times_of row.session_id snapshots ≢ []
unfolding times_of get
times_of-get id row [] found h = absurd (ground arith)
times_of-get id row ((i, r) ∷ snapshots) found h = elim (Bool-cases (i == id)) [
  | inl e ↦
      let one : r ≡ row = cc (rw e at found) in
      let same : (r.session_id == row.session_id) ≡ true =
        (string_eq.test_iff r.session_id row.session_id).1 (ap (λ x. x.session_id) one) in
      absurd (cc (rw same at h))
  | inr e ↦ elim (Bool-cases (r.session_id == row.session_id)) [
    | inl e' ↦ absurd (cc (rw e' at h))
    | inr e' ↦ times_of-get id row snapshots (rw e at found) (rw e' at h)
  ]
]

store_snapshot-IsSummed :
    (p : Platform) (s : Snapshot) (source : String) (at : ℕ) (t : Store)
    → ((k : String) → (s.session_id == k) ≡ false → Fits t.snapshots t.sessions k)
    → IsSummed (store_snapshot p s source at t).1
unfolding store_snapshot row_of
store_snapshot-IsSummed p s source at t h k = elim (Bool-cases (s.session_id == k)) [
  | inl same ↦
      let e = (string_eq.test_iff s.session_id k).0 same in
      let snapshots = t.snapshots ++ (t.next_id, row_of at s) ∷ [] in
      let d = upsert_session s source at t.sessions in
      subst (Fits snapshots (refresh_session snapshots s.session_id d)) e (
        refresh_session_self snapshots s.session_id d
          (upsert-Known s source at t.sessions snapshots))
  | inr other ↦
      let snapshots = t.snapshots ++ (t.next_id, row_of at s) ∷ [] in
      let d = upsert_session s source at t.sessions in
      ap span (
        refresh_session-other snapshots s.session_id k d other
        ∙ upsert-other s source at t.sessions k other)
      ∙ h k other
      ∙ ap aggregate (sym (times_of-append k t.next_id (row_of at s) t.snapshots other))
]

-- The datetimes of Python's library: what is formatted is parsed back.
abbrev pub RoundTrips : Platform → Type 0
RoundTrips p = (at : ℕ) → p.parse_datetime (p.format_datetime at) ≡ some at

module _ (p : Platform) (trip : RoundTrips p) (s : Snapshot) (source : String) where
  abbrev at_time : ℕ → Snapshot
  at_time at = record s { snapshot_time = p.format_datetime at }

  insert_snapshot-eq :
      (at : ℕ) (t : Store)
      → p.parse_datetime s.snapshot_time ≡ some at
      → transact (insert_snapshot p s source) t ≡ (
        ok (store_snapshot p (at_time at) source at t).0,
        (store_snapshot p (at_time at) source at t).1,
      )
  unfolding insert_snapshot normalized_snapshot
  insert_snapshot-eq at t h = rw (h, trip at) refl

  insert_snapshot-same :
      (t : Store)
      → p.parse_datetime s.snapshot_time ≡ none
      → (transact (insert_snapshot p s source) t).1 ≡ t
  unfolding insert_snapshot normalized_snapshot
  insert_snapshot-same t h = rw h refl

  update_snapshot-eq :
      (id at : ℕ) (t : Store)
      → p.parse_datetime s.snapshot_time ≡ some at
      → update_snapshot p id s source t
        ≡ replace_snapshot p id (at_time at) source at (get id t.snapshots) t
  unfolding update_snapshot normalized_snapshot
  update_snapshot-eq id at t h = rw (h, trip at) refl

  update_snapshot-same :
      (id : ℕ) (t : Store)
      → p.parse_datetime s.snapshot_time ≡ none
      → (update_snapshot p id s source t).1 ≡ t
  unfolding update_snapshot normalized_snapshot
  update_snapshot-same id t h = rw h refl

  -- The invariant may be broken at the session of the inserted snapshot.
  inserted-IsSummed :
      (at : ℕ) (t : Store)
      → p.parse_datetime s.snapshot_time ≡ some at
      → ((k : String) → (s.session_id == k) ≡ false → Fits t.snapshots t.sessions k)
      → IsSummed (transact (insert_snapshot p s source) t).1
  inserted-IsSummed at t e h =
      subst (λ x. IsSummed x.1) (sym (insert_snapshot-eq at t e))
        (store_snapshot-IsSummed p (at_time at) source at t h)

  pub insert_snapshot-IsSummed :
      (t : Store) → IsSummed t → IsSummed (transact (insert_snapshot p s source) t).1
  insert_snapshot-IsSummed t h = elim (Option-cases (p.parse_datetime s.snapshot_time)) [
    | inl bad ↦ subst IsSummed (sym (insert_snapshot-same t bad)) h
    | inr (at, e) ↦ inserted-IsSummed at t e (λ k _. h k)
  ]

module _ (snapshots : Dict ℕ SnapshotRow) (left session_id : String) (d : Dict String Session) where
  refresh_left-other :
      (k : String)
      → (left == k) ≡ false
      → get k (refresh_left snapshots left session_id d) ≡ get k d
  refresh_left-other k h = elim (Bool-cases (left == session_id)) [
    | inl e ↦ rw e refl
    | inr e ↦ rw e (refresh_session-other snapshots left k d h)
  ]

  refresh_left-Known :
      (k : String)
      → Known snapshots d k
      → Known snapshots (refresh_left snapshots left session_id d) k
  refresh_left-Known k h = elim (Bool-cases (left == session_id)) [
    | inl e ↦ rw e h
    | inr e ↦ rw e (refresh_session-Known snapshots left k d h)
  ]

  refresh_left_self :
      (left == session_id) ≡ false
      → Known snapshots d left
      → Fits snapshots (refresh_left snapshots left session_id d) left
  refresh_left_self e h = rw e (refresh_session_self snapshots left d h)

-- The session of the replaced snapshot and its new session are refreshed; no other has changed.
replaced-IsSummed :
    (p : Platform) (id : ℕ) (s : Snapshot) (source : String) (at : ℕ) (previous : SnapshotRow)
    (t : Store)
    → get id t.snapshots ≡ some previous
    → IsSummed t
    → IsSummed (replace_snapshot p id s source at (some previous) t).1
unfolding replace_snapshot row_of
replaced-IsSummed p id s source at previous t found h k =
    let snapshots = put id (row_of at s) t.snapshots in
    let d = upsert_session s source at t.sessions in
    let left = refresh_left snapshots previous.session_id s.session_id d in
    elim (Bool-cases (s.session_id == k)) [
      | inl same ↦
          subst (Fits snapshots (refresh_session snapshots s.session_id left))
            ((string_eq.test_iff s.session_id k).0 same)
            (refresh_session_self snapshots s.session_id left (
              refresh_left-Known snapshots previous.session_id s.session_id d s.session_id
                (upsert-Known s source at t.sessions snapshots)))
      | inr other ↦
          ap span (refresh_session-other snapshots s.session_id k left other)
          ∙ elim (Bool-cases (previous.session_id == k)) [
            | inl was ↦
                let e = (string_eq.test_iff previous.session_id k).0 was in
                let apart : (previous.session_id == s.session_id) ≡ false = ground (
                  arith,
                  string_eq.test_iff previous.session_id s.session_id,
                  string_eq.test_iff s.session_id k,
                ) in
                let known : Known snapshots t.sessions previous.session_id = λ missing. absurd (
                  times_of-get id previous t.snapshots found (
                    aggregate-none (times_of previous.session_id t.snapshots) (
                      Known-Fits t.snapshots t.sessions previous.session_id (h previous.session_id)
                        missing))) in
                subst (Fits snapshots left) e (
                  refresh_left_self snapshots previous.session_id s.session_id d apart
                    (upsert-keeps_Known s source at t.sessions snapshots previous.session_id known))
            | inr was_not ↦
                ap span (
                  refresh_left-other snapshots previous.session_id s.session_id d k was_not
                  ∙ upsert-other s source at t.sessions k other)
                ∙ h k
                ∙ ap aggregate
                    (sym (times_of-put k id previous (row_of at s) t.snapshots found was_not other))
          ]
    ]

replace_snapshot-IsSummed :
    (p : Platform) (trip : RoundTrips p) (id : ℕ) (s : Snapshot) (source : String) (at : ℕ)
    (previous : Option SnapshotRow) (t : Store)
    → p.parse_datetime s.snapshot_time ≡ some at
    → get id t.snapshots ≡ previous
    → IsSummed t
    → IsSummed (replace_snapshot p id s source at previous t).1
unfolding replace_snapshot
replace_snapshot-IsSummed p trip id s source at none t e found h =
    inserted-IsSummed p trip s source at
      (record t { sessions = upsert_session s source at t.sessions }) e
      λ k other. ap span (upsert-other s source at t.sessions k other) ∙ h k
replace_snapshot-IsSummed p trip id s source at (some previous) t e found h =
    replaced-IsSummed p id s source at previous t found h

pub update_snapshot-IsSummed :
    (p : Platform) (trip : RoundTrips p) (id : ℕ) (s : Snapshot) (source : String) (t : Store)
    → IsSummed t
    → IsSummed (update_snapshot p id s source t).1
update_snapshot-IsSummed p trip id s source t h =
    elim (Option-cases (p.parse_datetime s.snapshot_time)) [
      | inl bad ↦ subst IsSummed (sym (update_snapshot-same p trip s source id t bad)) h
      | inr (at, e) ↦
          subst (λ x. IsSummed x.1) (sym (update_snapshot-eq p trip s source id at t e))
            (replace_snapshot-IsSummed p trip id (at_time p trip s source at) source at
              (get id t.snapshots) t (trip at) refl h)
    ]

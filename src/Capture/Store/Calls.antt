-- ===== src/Capture/Store/Calls.antt =====
-- Every sequence of calls of replay/repository.py, cleanups and deletions among them.
use gamma_scope.Prelude.{
  ℕ, String, string_eq, nat_eq, ◌≡◌, refl, sym, ◌∙◌, ap, Bool, true, false, not, Option, none, List,
  [], ◌∷◌, arith, ◌==◌, inl, inr, keep, Bool-cases,
}
use gamma_scope.Prelude.Dict.{Dict, get}
use gamma_scope.Replay.Effects.{Platform, transact}
use gamma_scope.Capture.Store.{
  Snapshot, SnapshotRow, Store, times_of, aggregate, remove, insert_snapshot, update_snapshot,
  delete_session, is_expired, is_in, distinct, session_ids, delete_expired, cleanup_before,
  is_in_scope,
}
use gamma_scope.Capture.Store.Refresh.{
  span, get-remove, Known-Fits, refresh_all-Fits, refresh_all_self, is_in-distinct,
}
use gamma_scope.Capture.Store.Summed.{
  IsSummed, RoundTrips, aggregate-none, insert_snapshot-IsSummed, update_snapshot-IsSummed,
}

-- Fewer snapshots: a session that has some now had some before.
times_of-keep :
    (k : String) (p : ℕ × SnapshotRow → Bool) (snapshots : Dict ℕ SnapshotRow)
    → times_of k snapshots ≡ []
    → times_of k (keep p snapshots) ≡ []
unfolding times_of
times_of-keep k p [] h = refl
times_of-keep k p ((i, r) ∷ snapshots) h = ground (arith, times_of-keep k p snapshots)

-- A session of which none is deleted keeps its times.
times_of-keep_all :
    (k : String) (p : ℕ × SnapshotRow → Bool) (snapshots : Dict ℕ SnapshotRow)
    → is_in k (session_ids (keep p snapshots)) ≡ false
    → times_of k (keep (λ e. not (p e)) snapshots) ≡ times_of k snapshots
unfolding times_of
times_of-keep_all k p [] h = refl
times_of-keep_all k p ((i, r) ∷ snapshots) h = elim (Bool-cases (p (i, r))) [
  | inl e ↦
      let h' = rw e at h in
      elim (Bool-cases (r.session_id == k)) [
        | inl hit ↦ absurd (cc (rw hit at h'))
        | inr missed ↦
            let rest = times_of-keep_all k p snapshots (rw missed at h') in
            rw (e, missed, rest) refl
      ]
  | inr e ↦ let rest = times_of-keep_all k p snapshots (rw e at h) in rw (e, rest) refl
]

pub delete_expired-IsSummed :
    (in_scope : String → Bool) (cutoff : ℕ) (t : Store)
    → IsSummed t
    → IsSummed (delete_expired in_scope cutoff t)
unfolding delete_expired
delete_expired-IsSummed in_scope cutoff t h k =
    let expired = keep (is_expired in_scope cutoff) t.snapshots in
    let kept = keep (λ e. not (is_expired in_scope cutoff e)) t.snapshots in
    let ks = distinct (session_ids expired) in
    elim (Bool-cases (is_in k (session_ids expired))) [
      | inl hit ↦
          refresh_all_self kept ks k t.sessions (is_in-distinct k (session_ids expired) ∙ hit)
            λ missing. ap aggregate (
              times_of-keep k (λ e. not (is_expired in_scope cutoff e)) t.snapshots
                (aggregate-none (times_of k t.snapshots)
                  (Known-Fits t.snapshots t.sessions k (h k) missing)))
      | inr miss ↦ refresh_all-Fits kept ks k t.sessions (
          h k
          ∙ ap aggregate (sym (times_of-keep_all k (is_expired in_scope cutoff) t.snapshots miss)))
    ]

times_of-delete_self :
    (id k : String) (snapshots : Dict ℕ SnapshotRow)
    → (id == k) ≡ true
    → times_of k (keep (λ e. not (e.1.session_id == id)) snapshots) ≡ []
unfolding times_of
times_of-delete_self id k [] h = refl
times_of-delete_self id k ((i, r) ∷ snapshots) h = ground (
  arith,
  times_of-delete_self id k snapshots h,
  string_eq.test_iff id k,
  string_eq.test_iff r.session_id id,
  string_eq.test_iff r.session_id k,
)

times_of-delete_other :
    (id k : String) (snapshots : Dict ℕ SnapshotRow)
    → (id == k) ≡ false
    → times_of k (keep (λ e. not (e.1.session_id == id)) snapshots) ≡ times_of k snapshots
unfolding times_of
times_of-delete_other id k [] h = refl
times_of-delete_other id k ((i, r) ∷ snapshots) h = ground (
  arith,
  times_of-delete_other id k snapshots h,
  string_eq.test_iff id k,
  string_eq.test_iff r.session_id id,
  string_eq.test_iff r.session_id k,
)

delete_session-IsSummed : (id : String) (t : Store) → IsSummed t → IsSummed (delete_session id t)
unfolding delete_session
delete_session-IsSummed id t h k = elim (Bool-cases (id == k)) [
  | inl same ↦
      let e = (string_eq.test_iff id k).0 same in
      let gone : get k (remove id t.sessions) ≡ none = get-remove id k t.sessions ∙ rw same refl in
      ap span gone ∙ ap aggregate (sym (times_of-delete_self id k t.snapshots same))
  | inr other ↦
      let kept : get k (remove id t.sessions) ≡ get k t.sessions =
        get-remove id k t.sessions ∙ rw other refl in
      ap span kept ∙ h k ∙ ap aggregate (sym (times_of-delete_other id k t.snapshots other))
]

-- The calls of the repository that may change a table.
pub data StoreCall : Type 0 where
  insert : Snapshot → String → StoreCall
  update : ℕ → Snapshot → String → StoreCall
  cleanup : (String → String → Bool) → ℕ → Bool → Option String → StoreCall
  delete : String → StoreCall

unfoldable pub run_store_call : Platform → Store → StoreCall → Store
unfolding insert_snapshot update_snapshot cleanup_before delete_session
run_store_call p t (insert s source) = (transact (insert_snapshot p s source) t).1
run_store_call p t (update id s source) = (update_snapshot p id s source t).1
run_store_call p t (cleanup like cutoff dry_run prefix) =
    (cleanup_before like cutoff dry_run prefix t).1
run_store_call p t (delete session_id) = delete_session session_id t

unfoldable pub run_store_calls : Platform → Store → List StoreCall → Store
run_store_calls p t [] = t
run_store_calls p t (c ∷ calls) = run_store_calls p (run_store_call p t c) calls

cleanup_before-IsSummed :
    (like : String → String → Bool) (cutoff : ℕ) (dry_run : Bool) (prefix : Option String)
    (t : Store)
    → IsSummed t
    → IsSummed (cleanup_before like cutoff dry_run prefix t).1
unfolding cleanup_before
cleanup_before-IsSummed like cutoff true prefix t h = h
cleanup_before-IsSummed like cutoff false prefix t h =
    delete_expired-IsSummed (is_in_scope like prefix) cutoff t h

run_store_call-IsSummed :
    (p : Platform) (t : Store) (c : StoreCall)
    → RoundTrips p
    → IsSummed t
    → IsSummed (run_store_call p t c)
unfolding run_store_call
run_store_call-IsSummed p t (insert s source) trip h = insert_snapshot-IsSummed p trip s source t h
run_store_call-IsSummed p t (update id s source) trip h =
    update_snapshot-IsSummed p trip id s source t h
run_store_call-IsSummed p t (cleanup like cutoff dry_run prefix) trip h =
    cleanup_before-IsSummed like cutoff dry_run prefix t h
run_store_call-IsSummed p t (delete session_id) trip h = delete_session-IsSummed session_id t h

-- Whatever captures, cleanups and deletions come in whatever order: if every session's row tells
-- the first and last time and the number of its snapshots before, and only sessions with snapshots
-- have a row, then so it is after, if a formatted datetime parses back to itself.
pub run_store_calls-IsSummed :
    (p : Platform) (calls : List StoreCall) (t : Store)
    → RoundTrips p
    → IsSummed t
    → IsSummed (run_store_calls p t calls)
unfolding run_store_calls
run_store_calls-IsSummed p [] t trip h = h
run_store_calls-IsSummed p (c ∷ calls) t trip h =
    run_store_calls-IsSummed p calls (run_store_call p t c) trip
      (run_store_call-IsSummed p t c trip h)

-- ===== src/Replay/Machine/Runs.antt =====
-- Every sequence of calls.
use mathlib.Core.Path.{subst}
use gamma_scope.Prelude.{
  ℕ, String, string_eq, ◌≡◌, ◌≢◌, refl, sym, ◌∙◌, Bool, true, false, none, some, List, [], ◌∷◌,
  arith, inl, inr, Bool-cases, Option-cases,
}
use gamma_scope.Prelude.Dict.{get, has, get_of_not-has}
use gamma_scope.Replay.Effects.{Result, Tx, ok, err, Platform, joined}
use gamma_scope.Replay.Columns.{if_fits}
use gamma_scope.Replay.Tables.{
  Status, uploaded, validating, awaiting_confirmation, publishing, completed, ImportRecord, Tables,
}
use gamma_scope.Replay.Imports.{
  NewImport, new_import_fits, archive_fits, validation_fits, new_row, create_import,
  save_archive_metadata, archive_row, save_validation, validation_row, mark_validating,
  mark_awaiting_confirmation, mark_publishing, mark_completed, mark_failed, mark_cancelled,
  transition_row, fail_row, cancel_row,
}
use gamma_scope.Replay.Publish.{Publication, completed_row, publish_import}
use gamma_scope.Replay.Publish.Rows.{publish_import-IsPublished}
use gamma_scope.Replay.Machine.{
  Call, create, archive, validation, validate, await, publish, complete, fail, cancel, publish_all,
  ◌⟶◌, ◌⟶*◌, ◌⟶?◌, start, ready, confirm, finish, here, then, stay, move, after, run_call,
  run_calls,
}
use gamma_scope.Replay.Machine.Rows.{
  needs_session, IsNamed, Moves, Moves-of_same, Moves-of_edge, transition_row-Moves, fail_row-Moves,
  cancel_row-Moves, Evolves, Evolves-refl, Evolves-put, Evolves-of_new, with_row-Evolves,
}

ok_eq : {a b : ImportRecord} → ok a ≡ ok b → a ≡ b
ok_eq h = cc

create_import-Evolves :
    (uuid : String) (now : ℕ) (n : NewImport) (t : Tables)
    → Evolves t (after (create_import uuid now n t) t)
unfolding create_import
create_import-Evolves uuid now n t =
    let k = joined ("import-" ∷ uuid ∷ []) in
    elim (Bool-cases (new_import_fits n)) [
      | inr refuses ↦ rw refuses (Evolves-refl t)
      | inl fits ↦ elim (Bool-cases (has k t.imports)) [
        | inl taken ↦ rw (fits, taken) (Evolves-refl t)
        | inr free ↦
            rw (fits, free)
              (Evolves-of_new k (new_row k now n) t _ (get_of_not-has k t.imports free) refl refl)
      ]
    ]

publish_import-Evolves :
    (p : Platform) (now : ℕ) (a : Publication) (t : Tables) (r : Result (Unit {0} × Tables))
    → publish_import p now a t ≡ r
    → Evolves t (after r t)
publish_import-Evolves p now a t (err e) h = Evolves-refl t
publish_import-Evolves p now a t (ok (tt, t')) h =
    let (row, found, state, e) = (publish_import-IsPublished p now a t t' h).import_completed in
    Evolves-put a.import_id row (completed_row now a row) t t' found
      (Moves-of_edge row (completed_row now a row) (subst (λ s. s ⟶ completed) (sym state) finish)
        (λ c. absurd (cc (sym state ∙ c))) (λ n k. ground arith))
      e

-- A confirmed import comes with the session that it had.
keeps_session :
    (row : ImportRecord)
    → IsNamed row
    → row.status ≡ awaiting_confirmation
    → needs_session publishing ≡ true
    → row.session_id ≢ none
keeps_session row n e _ = n (rw e)

if_fits-Evolves :
    (b : Bool) (m : Tx Tables (Unit {0})) (t : Tables)
    → Evolves t (after (m t) t)
    → Evolves t (after (if_fits b m t) t)
if_fits-Evolves true m t h = h
if_fits-Evolves false m t h = Evolves-refl t

-- Each call is a step of the diagram.
pub run_call-Evolves : (p : Platform) (t : Tables) (c : Call) → Evolves t (run_call p t c)
unfolding run_call save_archive_metadata save_validation mark_validating mark_awaiting_confirmation
    mark_publishing mark_completed mark_failed mark_cancelled
run_call-Evolves p t (create uuid now n) = create_import-Evolves uuid now n t
run_call-Evolves p t (archive k now a) = if_fits-Evolves (archive_fits a) _ t (
    with_row-Evolves k (archive_row now a) t
      λ row row' h. subst (Moves row) (ok_eq h) (Moves-of_same row _ refl refl))
run_call-Evolves p t (validation k now s ws es) = if_fits-Evolves (validation_fits s ws es) _ t (
    with_row-Evolves k (validation_row now s ws es) t
      λ row row' h. subst (Moves row) (ok_eq h) (Moves-of_same row _ refl refl))
run_call-Evolves p t (validate k now) =
    with_row-Evolves k (transition_row now uploaded validating none) t λ row row'.
      transition_row-Moves now uploaded validating none row start (λ e. absurd (cc e))
        (λ n e s. absurd (cc s))
run_call-Evolves p t (await k now sid) =
    with_row-Evolves k (transition_row now validating awaiting_confirmation (some sid)) t
      λ row row'.
        transition_row-Moves now validating awaiting_confirmation (some sid) row ready
          (λ e. absurd (cc e)) (λ n e s k. absurd (cc k))
run_call-Evolves p t (publish k now) =
    with_row-Evolves k (transition_row now awaiting_confirmation publishing none) t λ row row'.
      transition_row-Moves now awaiting_confirmation publishing none row confirm
        (λ e. absurd (cc e)) (λ n e. keeps_session row n e)
run_call-Evolves p t (complete k now sid) =
    with_row-Evolves k (transition_row now publishing completed (some sid)) t λ row row'.
      transition_row-Moves now publishing completed (some sid) row finish (λ e. absurd (cc e))
        (λ n e s k. absurd (cc k))
run_call-Evolves p t (fail k now es) =
    with_row-Evolves k (fail_row now es) t (λ row row'. fail_row-Moves now es row)
run_call-Evolves p t (cancel k now) =
    with_row-Evolves k (cancel_row now) t (λ row row'. cancel_row-Moves now row)
run_call-Evolves p t (publish_all now a) =
    publish_import-Evolves p now a t (publish_import p now a t) refl

add_edge : {s t u : Status} → s ⟶* t → t ⟶? u → s ⟶* u
add_edge r stay = r
add_edge r (move e) = then r e

run_calls_from :
    (p : Platform) (calls : List Call) (t : Tables) (k : String) (s : Status) (row : ImportRecord)
    → s ⟶* row.status
    → get k t.imports ≡ some row
    → (row' : ImportRecord) × (get k (run_calls p t calls).imports ≡ some row') × (s ⟶* row'.status)
unfolding run_calls
run_calls_from p [] t k s row r found = (row, found, r)
run_calls_from p (c ∷ calls) t k s row r found =
    let (row1, found1, m) = (run_call-Evolves p t c).moved k row found in
    run_calls_from p calls (run_call p t c) k s row1 (add_edge r m.edge) found1

-- Whatever the repository is asked to do, in whatever order and with whatever failures, an import
-- that is stored stays stored, and its state is reached along the edges of the diagram.
pub run_calls_follow_edges :
    (p : Platform) (calls : List Call) (t : Tables) (k : String) (row : ImportRecord)
    → get k t.imports ≡ some row
    → (row' : ImportRecord) × (get k (run_calls p t calls).imports ≡ some row')
      × (row.status ⟶* row'.status)
run_calls_follow_edges p calls t k row found = run_calls_from p calls t k row.status row here found

-- `completed` has no edge out.
completed_stays : {s t : Status} → s ⟶? t → s ≡ completed → t ≡ completed
completed_stays stay e = e
completed_stays (move start) e = absurd (cc)
completed_stays (move ready) e = absurd (cc)
completed_stays (move confirm) e = absurd (cc)
completed_stays (move finish) e = refl
completed_stays (move _) e = absurd (cc)

-- A completed import stays completed under its session, whatever the repository is asked to do.
pub run_calls_completed :
    (p : Platform) (calls : List Call) (t : Tables) (k : String) (row : ImportRecord)
    → get k t.imports ≡ some row
    → row.status ≡ completed
    → (row' : ImportRecord) × (get k (run_calls p t calls).imports ≡ some row')
      × (row'.status ≡ completed)
      × (row'.session_id ≡ row.session_id)
unfolding run_calls
run_calls_completed p [] t k row found e = (row, found, e, refl)
run_calls_completed p (c ∷ calls) t k row found e =
    let (row1, found1, m) = (run_call-Evolves p t c).moved k row found in
    let (row2, found2, e2, s2) =
      run_calls_completed p calls (run_call p t c) k row1 found1 (completed_stays m.edge e) in
    (row2, found2, e2, s2 ∙ m.kept e)

-- Every import that awaits confirmation, is being published or is completed has a session.
abbrev pub AllNamed : Tables → Type 0
AllNamed t = (k : String) (row : ImportRecord) → get k t.imports ≡ some row → IsNamed row

Evolves-AllNamed : (t t' : Tables) → Evolves t t' → AllNamed t → AllNamed t'
Evolves-AllNamed t t' ev all k row' found' = elim (Option-cases (get k t.imports)) [
  | inl missing ↦ λ needs. absurd (ground (arith, ev.fresh k row' missing found'))
  | inr (row, found) ↦
      let (row1, found1, m) = ev.moved k row found in
      let one : row1 ≡ row' = cc (found1, found') in subst IsNamed one (m.named (all k row found))
]

-- Calls of the repository keep this invariant, so it holds of every table that grows from none.
pub run_calls-AllNamed :
    (p : Platform) (calls : List Call) (t : Tables) → AllNamed t → AllNamed (run_calls p t calls)
unfolding run_calls
run_calls-AllNamed p [] t all = all
run_calls-AllNamed p (c ∷ calls) t all =
    run_calls-AllNamed p calls (run_call p t c)
      (Evolves-AllNamed t (run_call p t c) (run_call-Evolves p t c) all)

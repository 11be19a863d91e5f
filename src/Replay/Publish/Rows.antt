-- ===== src/Replay/Publish/Rows.antt =====
-- What a successful `publish_import` has written.
use mathlib.Core.List.{append-nil, append_assoc}
use mathlib.Core.Path.{subst}
use gamma_scope.Prelude.{
  ℕ, suc, ◌+◌, String, ◌≡◌, refl, sym, ap, ◌∙◌, false, some, List, [], ◌∷◌, ◌++◌, inl, inr, arith,
  leb, length, Bool-cases, All, ◌==◌, string_eq,
}
use gamma_scope.Prelude.Dict.{get, put, has, get-put_self}
use gamma_scope.Replay.Effects.{Result, ok, err, Platform}
use gamma_scope.Replay.Imports.{locked_import}
use gamma_scope.Replay.Tables.{
  publishing, status_eq, status_beq_iff, ImportRecord, SnapshotRecord, SnapshotHeader, SessionRow,
  Tables, QuoteRecord,
}
use gamma_scope.Replay.Publish.{
  Quotes, done, broken, next, and_then, parse_time, snapshot_row, insert_snapshot, insert_snapshots,
  quote_row, insert_batch, insert_quotes, quote_insert_batch_size, Publication, completed_row,
  written, publish_rows, publish_import,
}
use gamma_scope.Replay.Publish.Batches.{
  rows_of, IsDone, insert_batch-eq, insert_quotes-eq-insert_batch,
}

-- A chain that returns has returned at each step.
pub and_then-eq-ok {ℓ κ} :
    {A : Type ℓ} {B : Type κ} (r : Result A) (f : A → Result B) {b : B}
    → and_then r f ≡ ok b
    → (a : A) × (r ≡ ok a) × (f a ≡ ok b)
and_then-eq-ok (ok a) f h = (a, refl, h)
and_then-eq-ok (err e) f h = absurd (cc)

-- The same, for a proof that goes on with each result as a variable.
pub and_then_elim {ℓ κ μ} :
    {A : Type ℓ} {B : Type κ} (P : Type μ) (r : Result A) (f : A → Result B) {b : B}
    → and_then r f ≡ ok b
    → ((a : A) → r ≡ ok a → f a ≡ ok b → P)
    → P
and_then_elim P (ok a) f h k = k a refl h
and_then_elim P (err e) f h k = absurd (cc)

insert_snapshot-eq :
    (row : SnapshotHeader) (rows : List SnapshotHeader) {rows' : List SnapshotHeader}
    → insert_snapshot row rows ≡ ok rows'
    → rows' ≡ rows ++ row ∷ []
unfolding insert_snapshot
insert_snapshot-eq row rows h = ground arith

-- The rows of the snapshots stand behind those that were there, all of the given session.
insert_snapshots-eq :
    (p : Platform) (session_id : String) (snapshots : List SnapshotRecord)
    (rows : List SnapshotHeader) {rows' : List SnapshotHeader}
    → insert_snapshots p session_id snapshots rows ≡ ok rows'
    → (new : List SnapshotHeader) × (rows' ≡ rows ++ new)
      × (length new ≡ length snapshots)
      × All (λ row. row.session_id ≡ session_id) new
unfolding insert_snapshots snapshot_row
insert_snapshots-eq p session_id [] rows h = ([], cc (append-nil rows), refl, tt)
insert_snapshots-eq p session_id (s ∷ snapshots) rows h =
    let (at, parsed, h1) = and_then-eq-ok (parse_time p s.snapshot_time) _ h in
    let row = snapshot_row session_id at s in
    let (rows1, inserted, h2) = and_then-eq-ok (insert_snapshot row rows) _ h1 in
    let (new, e, n, of) = insert_snapshots-eq p session_id snapshots rows1 h2 in
    (
      row ∷ new,
      e
          ∙ ap (λ l. l ++ new) (insert_snapshot-eq row rows inserted)
          ∙ append_assoc rows (row ∷ []) new,
      ap suc n,
      (refl, of),
    )

-- Quotes are counted only if the stream has ended.
insert_quotes-IsDone :
    (size : ℕ) (session_id : String) (quotes : Quotes) (batch : List QuoteRecord) (count : ℕ)
    (rows : List QuoteRecord) {r : ℕ × List QuoteRecord}
    → insert_quotes size session_id quotes batch count rows ≡ ok r
    → IsDone quotes
unfolding insert_quotes
insert_quotes-IsDone size session_id done batch count rows h = tt
insert_quotes-IsDone size session_id (broken e) batch count rows h = absurd (cc)
insert_quotes-IsDone size session_id (next q quotes) batch count rows h =
    let batch' = batch ++ quote_row session_id q ∷ [] in
    elim (Bool-cases (leb size (length batch'))) [
      | inl e ↦
          let (rows', _, h') = and_then-eq-ok (insert_batch batch' rows) _ (rw e at h) in
          insert_quotes-IsDone size session_id quotes [] (count + length batch') rows' h'
      | inr e ↦ insert_quotes-IsDone size session_id quotes batch' count rows (rw e at h)
    ]

-- The loop that returns has appended the rows of all quotes and counted them.
insert_quotes-eq :
    (session_id : String) (quotes : Quotes) (rows : List QuoteRecord) (n : ℕ)
    (rows' : List QuoteRecord)
    → insert_quotes quote_insert_batch_size session_id quotes [] 0 rows ≡ ok (n, rows')
    → (rows' ≡ rows ++ rows_of session_id quotes) × (n ≡ length (rows_of session_id quotes))
insert_quotes-eq session_id quotes rows n rows' h =
    let ended = insert_quotes-IsDone quote_insert_batch_size session_id quotes [] 0 rows h in
    let one = insert_quotes-eq-insert_batch quote_insert_batch_size session_id quotes rows ended in
    let (all, inserted, e) =
      and_then-eq-ok (insert_batch (rows_of session_id quotes) rows) _ (sym one ∙ h) in
    (cc (insert_batch-eq (rows_of session_id quotes) rows inserted, e), cc)

-- What a publication has done when it returns.
pub record IsPublished (now : ℕ) (a : Publication) (t t' : Tables) : Type 0 where
  -- the session id was free
  pub was_free : has a.session_id t.sessions ≡ false
  -- the import was in state `publishing` and is completed under the session id; no other changes
  pub import_completed :
      (row : ImportRecord) × (get a.import_id t.imports ≡ some row)
      × (row.status ≡ publishing)
      × (t'.imports ≡ put a.import_id (completed_row now a row) t.imports)
  -- the session has the counts of what was stored
  pub session_counts :
      (row : SessionRow) × (get a.session_id t'.sessions ≡ some row)
      × (row.snapshot_count ≡ length a.snapshots)
      × (row.quote_count ≡ length (rows_of a.session_id a.quotes))
      × (row.import_id ≡ a.import_id)
  -- nothing that was stored is lost, and all rows of the publication stand behind it
  pub snapshots_stored :
      (new : List SnapshotHeader) × (t'.snapshots ≡ t.snapshots ++ new)
      × (length new ≡ length a.snapshots)
      × All (λ row. row.session_id ≡ a.session_id) new
  pub quotes_stored : t'.quotes ≡ t.quotes ++ rows_of a.session_id a.quotes

same_tables :
    (t t' : Tables) → ◌≡◌ {A = Result (Unit {0} × Tables)} (ok (tt, t)) (ok (tt, t')) → t ≡ t'
same_tables t t' h = cc

locked_import-eq :
    (import_id : String) (t : Tables) {row : ImportRecord}
    → locked_import import_id t ≡ ok row
    → get import_id t.imports ≡ some row
unfolding locked_import
locked_import-eq import_id t h = ground arith

module _ (p : Platform) (now : ℕ) (a : Publication) (row : ImportRecord) (t : Tables) where
  written-IsPublished :
      (start end : ℕ) (snapshots : List SnapshotHeader) (n : ℕ) (quotes : List QuoteRecord)
      → get a.import_id t.imports ≡ some row
      → row.status ≡ publishing
      → has a.session_id t.sessions ≡ false
      → insert_snapshots p a.session_id a.snapshots t.snapshots ≡ ok snapshots
      → insert_quotes quote_insert_batch_size a.session_id a.quotes [] 0 t.quotes ≡ ok (n, quotes)
      → IsPublished now a t (written now a row start end snapshots (n, quotes) t)
  written-IsPublished start end snapshots n quotes found state free inserted counted =
      let stored = insert_quotes-eq a.session_id a.quotes t.quotes n quotes counted in
      record {
        was_free = free;
        import_completed = (row, found, state, refl);
        session_counts = (_, get-put_self a.session_id _ t.sessions, refl, stored.1, refl);
        snapshots_stored = insert_snapshots-eq p a.session_id a.snapshots t.snapshots inserted;
        quotes_stored = stored.0;
      }

  publish_rows-IsPublished :
      (t' : Tables)
      → get a.import_id t.imports ≡ some row
      → row.status ≡ publishing
      → publish_rows p now a row t ≡ ok (tt, t')
      → IsPublished now a t t'
  unfolding publish_rows
  publish_rows-IsPublished t' found state h =
      and_then_elim (IsPublished now a t t') (parse_time p a.start_time) _ h λ start _ h1.
        and_then_elim (IsPublished now a t t') (parse_time p a.end_time) _ h1 λ end _ h2.
          elim (Bool-cases (has a.session_id t.sessions)) [
            | inl e ↦ absurd (cc (rw e at h2))
            | inr e ↦
                and_then_elim (IsPublished now a t t')
                  (insert_snapshots p a.session_id a.snapshots t.snapshots) _ (rw e at h2)
                  λ snapshots inserted h3.
                    and_then_elim (IsPublished now a t t')
                      (insert_quotes quote_insert_batch_size a.session_id a.quotes [] 0 t.quotes) _
                      h3
                      λ quoted counted h4. subst (IsPublished now a t) (same_tables _ t' h4) (
                        written-IsPublished start end snapshots quoted.0 quoted.1 found state e
                          inserted counted)
          ]

-- A `publish_import` that returns has moved its import, and no other, from `publishing` to
-- `completed`, under a session id that was free; it has kept every snapshot and quote row that was
-- stored, and added one row for each snapshot and the rows of all quotes; the session's row counts
-- them.
pub publish_import-IsPublished :
    (p : Platform) (now : ℕ) (a : Publication) (t t' : Tables)
    → publish_import p now a t ≡ ok (tt, t')
    → IsPublished now a t t'
unfolding publish_import
publish_import-IsPublished p now a t t' h =
    and_then_elim (IsPublished now a t t') (locked_import a.import_id t) _ h λ row found h1.
      elim (Bool-cases (row.status == publishing)) [
        | inl e ↦
            publish_rows-IsPublished p now a row t t' (locked_import-eq a.import_id t found)
              ((status_beq_iff row.status publishing).0 e) (rw e at h1)
        | inr e ↦ absurd (cc (rw e at h1))
      ]

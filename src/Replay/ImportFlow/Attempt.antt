-- ===== src/Replay/ImportFlow/Attempt.antt =====
-- The steps of `confirm_import` of replay/importer.py that compute: the summary's expiry and the
-- `try` block round `publish_import`.
use gamma_scope.Prelude.{
  ℕ, String, string_eq, ◌≡◌, refl, ap, ◌∙◌, true, false, Option, some, List, [], ◌∷◌, ◌==◌,
}
use gamma_scope.Prelude.Dict.{get, get-put, put}
use gamma_scope.Replay.Effects.{Error, Result, ok, err, Platform, Exec, transact, lift, ◌>>=◌}
use gamma_scope.Replay.Tables.{SnapshotRecord, status_eq, Json, Summary, Tables}
use gamma_scope.Replay.Publish.{Publication, publish_import}
use gamma_scope.Replay.Importer.{
  ReplayArchive, with_times, ReadResult, text_at, text_of, summary_with_metadata,
}
use gamma_scope.Replay.ImportFlow.{attempt_publish, is_empty}

-- A pure step that may raise, then the rest.
lift_elim :
    {A B : Type 0} (Q : Result B × Tables → Type 0) (r : Result A) (f : A → Exec Tables B)
    (t : Tables)
    → ((e : Error) → Q (err e, t))
    → ((a : A) → r ≡ ok a → Q (f a t))
    → Q ((lift r >>= f) t)
lift_elim Q (ok a) f t raised returned = returned a refl
lift_elim Q (err e) f t raised returned = raised e

transact_elim :
    (Q : Result (Unit {0}) × Tables → Type 0) (r : Result (Unit {0} × Tables)) (t : Tables)
    → ((e : Error) → Q (err e, t))
    → ((t' : Tables) → r ≡ ok (tt, t') → Q (ok tt, t'))
    → Q (transact (λ s. r) t)
transact_elim Q (ok (tt, t')) t raised returned = returned t' refl
transact_elim Q (err e) t raised returned = raised e

-- A publication is done as a whole, or leaves the tables as they were.
pub attempt_publish_elim :
    (p : Platform) (now : ℕ) (id session_id : String) (summary : Summary) (read : ReadResult)
    (t : Tables) (Q : Result (Unit {0}) × Tables → Type 0)
    → ((e : Error) → Q (err e, t))
    → ((a : Publication) (t' : Tables)
        → a.import_id ≡ id
        → publish_import p now a t ≡ ok (tt, t')
        → Q (ok tt, t'))
    → Q (attempt_publish p now id session_id summary read t)
unfolding attempt_publish
attempt_publish_elim p now id session_id summary read t Q raised returned =
    lift_elim Q (text_at "symbol" summary) _ t raised λ symbol _.
      lift_elim Q (text_at "expiry" summary) _ t raised λ expiry _.
        lift_elim Q (text_at "start_time" summary) _ t raised λ start_time _.
          lift_elim Q (text_at "end_time" summary) _ t raised λ end_time _.
            let a : Publication = record {
              import_id = id;
              session_id = session_id;
              symbol = symbol;
              expiry = expiry;
              start_time = start_time;
              end_time = end_time;
              snapshots = read.snapshots;
              quotes = read.quotes;
            } in
            transact_elim Q (publish_import p now a t) t raised λ t' h. returned a t' refl h

-- What `confirm_import` relies on: an archive that is read without errors has an expiry.
abbrev pub HasExpiry : ReadResult → Type 0
HasExpiry read =
    is_empty read.errors ≡ true → (e : String) × (get "expiry" read.summary ≡ some (Json.text e))

-- Every other key leaves the expiry as it is.
put-expiry :
    (k : String) (v : Json) (d : Summary) (r : Option Json)
    → (k == "expiry") ≡ false
    → get "expiry" d ≡ r
    → get "expiry" (put k v d) ≡ r
put-expiry k v d r other h = get-put k "expiry" v d ∙ rw (other, h)

with_times-expiry :
    (snapshots : List SnapshotRecord) (summary : Summary) (r : Option Json)
    → get "expiry" summary ≡ r
    → get "expiry" (with_times snapshots summary) ≡ r
unfolding with_times
with_times-expiry [] summary r h = h
with_times-expiry (s ∷ snapshots) summary r h = put-expiry "end_time" _ _ r refl (
    put-expiry "start_time" _ _ r refl (
      put-expiry "trade_date" _ _ r refl
        (put-expiry "scope" _ _ r refl (put-expiry "symbol" _ _ r refl h))))

-- The expiry stays in the summary that is saved.
pub kept_expiry :
    (a : ReplayArchive) (read : ReadResult) (e : String)
    → get "expiry" read.summary ≡ some (Json.text e)
    → text_at "expiry" (summary_with_metadata a read) ≡ ok e
unfolding summary_with_metadata
kept_expiry a read e h =
    let r : Option Json = some (Json.text e) in
    ap (text_of "expiry") (
      put-expiry "quotes_archive_path" _ _ r refl (
        put-expiry "snapshots_archive_path" _ _ r refl (
          put-expiry "quotes_size" _ _ r refl (
            put-expiry "snapshots_size" _ _ r refl (
              put-expiry "quotes_sha256" _ _ r refl (
                put-expiry "snapshots_sha256" _ _ r refl
                  (with_times-expiry read.snapshots read.summary r h)))))))

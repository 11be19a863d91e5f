-- ===== src/Replay/ImportFlow/SessionId.antt =====
-- The texts of the summary of replay/importer.py that a session id is made of.
use mathlib.Core.Path.{subst}
use gamma_scope.Prelude.{
  String, string_eq, ◌≡◌, refl, sym, ◌∙◌, ap, true, false, some, List, [], ◌∷◌, ◌==◌, All,
}
use gamma_scope.Prelude.Dict.{get, put, get-put, get-put_self}
use gamma_scope.Replay.Effects.{Result, ok, Platform, Exec, lift, ◌>>=◌}
use gamma_scope.Replay.Tables.{SnapshotRecord, Json, Summary, Tables}
use gamma_scope.Replay.Importer.{
  ReplayArchive, ReadResult, with_times, prefix, text_at, text_of, summary_with_metadata,
  stable_session_id,
}
use gamma_scope.Replay.ImportFlow.{is_empty}

-- What `create_import` relies on: files that are read without errors have a snapshot and an expiry.
abbrev pub IsReadable : ReadResult → Type 0
IsReadable read =
    is_empty read.errors ≡ true
    → ((s : SnapshotRecord) × (rest : List SnapshotRecord) × (read.snapshots ≡ s ∷ rest))
      × ((e : String) × (get "expiry" read.summary ≡ some (Json.text e)))

abbrev HasText : String → Summary → Type 0
HasText k d = (s : String) × (text_at k d ≡ ok s)

put-HasText_self : (k s : String) (d : Summary) → HasText k (put k (Json.text s) d)
put-HasText_self k s d = (s, ap (text_of k) (get-put_self k (Json.text s) d))

put-HasText :
    (k j : String) (v : Json) (d : Summary) → (k == j) ≡ false → HasText j d → HasText j (put k v d)
put-HasText k j v d other (s, h) =
    let e : get j (put k v d) ≡ get j d = get-put k j v d ∙ rw other refl in
    (s, ap (text_of j) e ∙ h)

-- A text that the metadata leaves alone.
metadata-HasText :
    (j : String) (a : ReplayArchive) (read : ReadResult)
    → All
        (λ k. (k == j) ≡ false)
        ("quotes_archive_path" ∷ "snapshots_archive_path" ∷ "quotes_size" ∷ "snapshots_size"
          ∷ "quotes_sha256" ∷ "snapshots_sha256" ∷ [])
    → HasText j (with_times read.snapshots read.summary)
    → HasText j (summary_with_metadata a read)
unfolding summary_with_metadata
metadata-HasText j a read (h1, (h2, (h3, (h4, (h5, (h6, _)))))) h = put-HasText _ j _ _ h1 (
    put-HasText _ j _ _ h2 (
      put-HasText _ j _ _ h3
        (put-HasText _ j _ _ h4 (put-HasText _ j _ _ h5 (put-HasText _ j _ _ h6 h)))))

-- The checksums of the metadata.
checksums-HasText :
    (a : ReplayArchive) (read : ReadResult)
    → HasText "snapshots_sha256" (summary_with_metadata a read)
      × HasText "quotes_sha256" (summary_with_metadata a read)
unfolding summary_with_metadata
checksums-HasText a read = (
  put-HasText "quotes_archive_path" _ _ _ refl (
      put-HasText "snapshots_archive_path" _ _ _ refl (
        put-HasText "quotes_size" _ _ _ refl (
          put-HasText "snapshots_size" _ _ _ refl (
            put-HasText "quotes_sha256" _ _ _ refl
              (put-HasText_self "snapshots_sha256" a.snapshots_sha256 _))))),
  put-HasText "quotes_archive_path" _ _ _ refl (
      put-HasText "snapshots_archive_path" _ _ _ refl (
        put-HasText "quotes_size" _ _ _ refl (
          put-HasText "snapshots_size" _ _ _ refl
            (put-HasText_self "quotes_sha256" a.quotes_sha256 _)))),
)

-- The texts that come from the first snapshot.
pub record HasTimes (d : Summary) : Type 0 where
  pub start_time : HasText "start_time" d
  pub symbol : HasText "symbol" d
  pub scope : HasText "scope" d
  pub trade_date : HasText "trade_date" d
  pub expiry : HasText "expiry" d

with_times-HasTimes :
    (s : SnapshotRecord) (rest : List SnapshotRecord) (d : Summary)
    → HasText "expiry" d
    → HasTimes (with_times (s ∷ rest) d)
unfolding with_times
with_times-HasTimes s rest d h = record {
  start_time = put-HasText "end_time" _ _ _ refl (put-HasText_self "start_time" s.snapshot_time _);
  symbol = put-HasText "end_time" _ _ _ refl (
      put-HasText "start_time" _ _ _ refl (
        put-HasText "trade_date" _ _ _ refl
          (put-HasText "scope" _ _ _ refl (put-HasText_self "symbol" "SPX" _))));
  scope = put-HasText "end_time" _ _ _ refl (
      put-HasText "start_time" _ _ _ refl
        (put-HasText "trade_date" _ _ _ refl (put-HasText_self "scope" "0DTE" _)));
  trade_date = put-HasText "end_time" _ _ _ refl (
      put-HasText "start_time" _ _ _ refl
        (put-HasText_self "trade_date" (prefix 10 s.snapshot_time) _));
  expiry = put-HasText "end_time" _ _ _ refl (
      put-HasText "start_time" _ _ _ refl (
        put-HasText "trade_date" _ _ _ refl
          (put-HasText "scope" _ _ _ refl (put-HasText "symbol" _ _ _ refl h))));
}

abbrev pub Returns : Exec Tables String → Tables → Type 0
Returns m t = (id : String) × (m t ≡ (ok id, t))

lift-Returns :
    (r : Result String) (f : String → Exec Tables String) (t : Tables)
    → ((s : String) × (r ≡ ok s))
    → ((s : String) → Returns (f s) t)
    → Returns (lift r >>= f) t
lift-Returns r f t (s, h) k = subst (λ x. Returns (lift x >>= f) t) (sym h) (k s)

-- A session id can be made of a summary that has all its texts.
stable_session_id-Returns :
    (p : Platform) (d : Summary) (t : Tables)
    → HasTimes d
    → HasText "snapshots_sha256" d
    → HasText "quotes_sha256" d
    → Returns (stable_session_id p d) t
unfolding stable_session_id
stable_session_id-Returns p d t h hx hy =
    lift-Returns (text_at "start_time" d) _ t h.start_time λ _.
      lift-Returns (text_at "snapshots_sha256" d) _ t hx λ _.
        lift-Returns (text_at "quotes_sha256" d) _ t hy λ _.
          lift-Returns (text_at "symbol" d) _ t h.symbol λ _.
            lift-Returns (text_at "scope" d) _ t h.scope λ _.
              lift-Returns (text_at "trade_date" d) _ t h.trade_date
                λ _. lift-Returns (text_at "expiry" d) _ t h.expiry λ _. (_, refl)

-- The summary of an upload that was read without errors gives a session id.
pub summary-Returns :
    (p : Platform) (a : ReplayArchive) (read : ReadResult) (t : Tables)
    → is_empty read.errors ≡ true
    → IsReadable read
    → Returns (stable_session_id p (summary_with_metadata a read)) t
summary-Returns p a read t sound readable =
    let ((s, rest, e), (x, expiry)) = readable sound in
    let times : HasTimes (with_times read.snapshots read.summary) =
      subst (λ l. HasTimes (with_times l read.summary)) (sym e)
        (with_times-HasTimes s rest read.summary (x, ap (text_of "expiry") expiry)) in
    let (snapshots_sha256, quotes_sha256) = checksums-HasText a read in
    stable_session_id-Returns p (summary_with_metadata a read) t
      (record {
        start_time =
            metadata-HasText "start_time" a read (refl, (refl, (refl, (refl, (refl, (refl, tt))))))
              times.start_time;
        symbol =
            metadata-HasText "symbol" a read (refl, (refl, (refl, (refl, (refl, (refl, tt))))))
              times.symbol;
        scope =
            metadata-HasText "scope" a read (refl, (refl, (refl, (refl, (refl, (refl, tt))))))
              times.scope;
        trade_date =
            metadata-HasText "trade_date" a read (refl, (refl, (refl, (refl, (refl, (refl, tt))))))
              times.trade_date;
        expiry =
            metadata-HasText "expiry" a read (refl, (refl, (refl, (refl, (refl, (refl, tt))))))
              times.expiry;
      })
      snapshots_sha256 quotes_sha256

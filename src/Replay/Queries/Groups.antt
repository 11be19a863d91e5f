-- ===== src/Replay/Queries/Groups.antt =====
-- The quotes of a stream: one query for all snapshots, grouped in memory, against one query for
-- each snapshot.
use mathlib.Core.List.{append-nil, append_assoc}
use gamma_scope.Prelude.{
  String, string_eq, ◌≡◌, refl, ap, ◌∙◌, inl, inr, Bool, true, ◌&&◌, Option, some, List, [], ◌∷◌,
  ◌++◌, map, arith, eq_iff, ◌==◌, keep, All, All-imp, Bool-cases,
}
use gamma_scope.Prelude.Dict.{Dict, get, put, get-put}
use gamma_scope.Prelude.Sort.{sorted, keep-sorted}
use gamma_scope.Replay.Effects.{Platform}
use gamma_scope.Replay.Tables.{SnapshotHeader, QuoteRecord, Tables}
use gamma_scope.Replay.Queries.{
  SnapshotData, quote_order, quote_key, quotes_for_snapshot, is_any, or_empty, empty_groups,
  group_quotes, quotes_for_snapshots, stream_snapshots, stream_order, selected_rows, session_rows,
  parse_optional,
}

abbrev of_id : String → QuoteRecord → Bool
of_id id q = q.source_snapshot_id == id

-- The loop appends to the group of an id the quotes of that id, in order.
get-group_quotes :
    (id : String) (quotes : List QuoteRecord) (groups : Dict String (List QuoteRecord))
    {g : List QuoteRecord}
    → get id groups ≡ some g
    → get id (group_quotes quotes groups) ≡ some (g ++ keep (of_id id) quotes)
unfolding group_quotes
get-group_quotes id [] groups {g} h = rw (append-nil g) h
get-group_quotes id (q ∷ quotes) groups {g} h = elim (Bool-cases (of_id id q)) [
  | inl e ↦
      let same = (eq_iff q.source_snapshot_id id).0 e in
      let next = g ++ q ∷ [] in
      rw e (
        get-group_quotes id quotes
          (put q.source_snapshot_id (or_empty (get q.source_snapshot_id groups) ++ q ∷ []) groups)
          {g = next}
          (rw (get-put q.source_snapshot_id id _ groups) (
            rw e (
              ap (λ l. some (l ++ q ∷ []))
                (ap (λ k. or_empty (get k groups)) same ∙ ap or_empty h))))
        ∙ ap some (append_assoc g (q ∷ []) (keep (of_id id) quotes)))
  | inr e ↦ rw e (
      get-group_quotes id quotes
        (put q.source_snapshot_id (or_empty (get q.source_snapshot_id groups) ++ q ∷ []) groups)
        {g = g} (rw (get-put q.source_snapshot_id id _ groups) (rw e h)))
]

get-empty_groups :
    (id : String) (ids : List String) → is_any id ids ≡ true → get id (empty_groups ids) ≡ some []
unfolding is_any empty_groups
get-empty_groups id [] h = absurd (cc)
get-empty_groups id (x ∷ ids) h =
    ground
      (arith, get-put x id [] (empty_groups ids), get-empty_groups id ids, eq_iff id x, eq_iff x id)

keep-keep :
    (p q r : QuoteRecord → Bool) (xs : List QuoteRecord)
    → ((x : QuoteRecord) → (q x && p x) ≡ r x)
    → keep p (keep q xs) ≡ keep r xs
keep-keep p q r [] h = refl
keep-keep p q r (x ∷ xs) h = ground (arith, h x, keep-keep p q r xs h)

is_any_nil : (id : String) → is_any id [] ≡ true → ⊥
unfolding is_any
is_any_nil id h = cc

one_group :
    (q : QuoteRecord) (session_id id : String) (ids : List String)
    → is_any id ids ≡ true
    → ((q.session_id == session_id && is_any q.source_snapshot_id ids) && of_id id q)
      ≡ (q.session_id == session_id && q.source_snapshot_id == id)
one_group q session_id id ids h = elim (Bool-cases (of_id id q)) [
  | inl e ↦
      let same : is_any q.source_snapshot_id ids ≡ true =
        ap (λ k. is_any k ids) ((eq_iff q.source_snapshot_id id).0 e) ∙ h in
      rw same (rw e (ground arith))
  | inr e ↦ rw e (ground arith)
]

-- Of the ids that were asked for, the grouped query has the quotes of the single query.
get-quotes_for_snapshots :
    (session_id id : String) (ids : List String) (t : Tables)
    → is_any id ids ≡ true
    → get id (quotes_for_snapshots session_id ids t) ≡ some (quotes_for_snapshot session_id id t)
unfolding quotes_for_snapshots quotes_for_snapshot
get-quotes_for_snapshots session_id id [] t h = absurd (is_any_nil id h)
get-quotes_for_snapshots session_id id (x ∷ ids) t h =
    let all =
      λ (q : QuoteRecord). q.session_id == session_id && is_any q.source_snapshot_id (x ∷ ids) in
    get-group_quotes id (sorted quote_order quote_key (keep all t.quotes)) (empty_groups (x ∷ ids))
      (get-empty_groups id (x ∷ ids) h)
    ∙ ap some (
        keep-sorted quote_order quote_key (of_id id) (keep all t.quotes)
        ∙ ap (λ l. sorted quote_order quote_key l)
            (keep-keep (of_id id) all _ t.quotes (λ q. one_group q session_id id (x ∷ ids) h)))

is_any_later :
    (id x : String) (ids : List String) → is_any id ids ≡ true → is_any id (x ∷ ids) ≡ true
unfolding is_any
is_any_later id x ids h = ground arith

is_any_first : (id : String) (ids : List String) → is_any id (id ∷ ids) ≡ true
unfolding is_any
is_any_first id ids = ground (arith, eq_iff id id)

-- Each row of a list has an id that is asked for.
asked :
    (rows : List SnapshotHeader)
    → All (λ row. is_any row.source_snapshot_id (map (λ r. r.source_snapshot_id) rows) ≡ true) rows
asked [] = tt
asked (row ∷ rows) = (
  is_any_first row.source_snapshot_id _,
  All-imp _ _ rows (λ r h. is_any_later r.source_snapshot_id row.source_snapshot_id _ h)
      (asked rows),
)

map-All :
    (P : SnapshotData → Type 0) (f : SnapshotHeader → SnapshotData) (rows : List SnapshotHeader)
    → All (λ row. P (f row)) rows
    → All P (map f rows)
map-All P f [] h = tt
map-All P f (row ∷ rows) h = (h.0, map-All P f rows h.1)

-- A stream carries for each of its snapshots the quotes that a query for that snapshot alone
-- returns, in the same order.
pub stream_snapshots_quotes :
    (p : Platform) (session_id : String) (at source_snapshot_id : Option String) (t : Tables)
    → All
        (λ d. d.quotes ≡ quotes_for_snapshot session_id d.header.source_snapshot_id t)
        (stream_snapshots p session_id at source_snapshot_id t)
unfolding stream_snapshots
stream_snapshots_quotes p session_id at source_snapshot_id t =
    let rows =
      stream_order
        (selected_rows (parse_optional p at) source_snapshot_id (session_rows session_id t)) in
    let ids = map (λ row. row.source_snapshot_id) rows in
    map-All _ _ rows (
      All-imp _ _ rows
        (λ row h. ap or_empty (get-quotes_for_snapshots session_id row.source_snapshot_id ids t h))
        (asked rows))

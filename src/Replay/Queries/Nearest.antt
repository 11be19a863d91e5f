-- ===== src/Replay/Queries/Nearest.antt =====
-- The nearest snapshot: two queries, one on each side of the target, against all rows.
use gamma_scope.Prelude.{
  ℕ, ◌≤◌, String, ◌≡◌, ◌≢◌, refl, ◌⊎◌, inl, inr, Bool, true, Option, none, some, List, [], arith,
  leb, keep, All, All-imp, All-of_keep, All-and, eq_iff,
}
use gamma_scope.Prelude.Order.{nat_ord, dual, lex}
use gamma_scope.Prelude.Sort.{min_by-eq-none}
use gamma_scope.Replay.Effects.{Platform}
use gamma_scope.Replay.Tables.{SnapshotHeader, Tables}
use gamma_scope.Replay.Queries.{
  data_of, of_session, session_rows, parse_optional, nearest_snapshot, distance, time_key,
  distance_key, before_record, after_record, candidates, nearest_record, nearest_row,
}

-- `m` is no farther from the target than each of the rows on one side.
abbrev pub NoFarther : ℕ → SnapshotHeader → SnapshotHeader → Type 0
NoFarther target m row = distance m.snapshot_time target ≤ distance row.snapshot_time target

no_before : (b a : Option SnapshotHeader) → candidates b a ≡ [] → b ≡ none
no_before none a h = refl
no_before (some b) none h = absurd (cc)
no_before (some b) (some a) h = absurd (cc)

no_after : (b a : Option SnapshotHeader) → candidates b a ≡ [] → a ≡ none
no_after b none h = refl
no_after none (some a) h = absurd (cc)
no_after (some b) (some a) h = absurd (cc)

data_of-none :
    (session_id : String) (t : Tables) (row : Option SnapshotHeader)
    → data_of session_id t row ≡ none
    → row ≡ none
data_of-none session_id t none h = refl
data_of-none session_id t (some row) h = absurd (cc)

module _ (target : ℕ) (rows : List SnapshotHeader) where
  abbrev early : SnapshotHeader → Bool
  early row = leb row.snapshot_time target

  abbrev late : SnapshotHeader → Bool
  late row = leb target row.snapshot_time

  -- No row on a side where the query finds none.
  before_record-none : before_record target rows ≡ none → All (λ row. early row ≡ true → ⊥) rows
  unfolding before_record
  before_record-none h =
      All-of_keep (λ _. ⊥) early rows
        (rw (min_by-eq-none (lex (dual nat_ord) nat_ord) time_key (keep early rows) h) tt)

  after_record-none : after_record target rows ≡ none → All (λ row. late row ≡ true → ⊥) rows
  unfolding after_record
  after_record-none h =
      All-of_keep (λ _. ⊥) late rows
        (rw (min_by-eq-none (lex nat_ord nat_ord) time_key (keep late rows) h) tt)

  either_side : (row : SnapshotHeader) → (early row ≡ true) ⊎ (late row ≡ true)
  either_side row = ground arith

  -- No choice only among no rows.
  nearest_row-none : nearest_row (some target) rows ≡ none → All (λ row. ⊥) rows
  unfolding nearest_row
  nearest_row-none h =
      All-imp _ (λ _. ⊥) rows (λ row k. elim (either_side row) [ inl e ↦ k.0 e | inr l ↦ k.1 l ])
        (All-and _ _ rows
          (before_record-none
            (no_before (before_record target rows) (after_record target rows) (no_nearest h)))
          (after_record-none
            (no_after (before_record target rows) (after_record target rows) (no_nearest h))))
    where
      no_nearest :
          nearest_record (before_record target rows) (after_record target rows) target ≡ none
          → candidates (before_record target rows) (after_record target rows) ≡ []
      no_nearest k = min_by-eq-none (lex nat_ord nat_ord) (distance_key target) _ k

-- `nearest_snapshot` at a time that parses returns nothing only if the session has no snapshot.
pub nearest_snapshot-eq-none :
    (p : Platform) (session_id : String) (at : Option String) (t : Tables) (target : ℕ)
    → parse_optional p at ≡ some target
    → nearest_snapshot p session_id at t ≡ none
    → All (λ row. row.session_id ≢ session_id) t.snapshots
unfolding nearest_snapshot
nearest_snapshot-eq-none p session_id at t target parsed h =
    let rows = session_rows session_id t in
    let missing = data_of-none session_id t (nearest_row (parse_optional p at) rows) h in
    let missing' : nearest_row (some target) rows ≡ none = rw parsed at missing in
    All-imp _ _ t.snapshots (λ row k e. k ((eq_iff row.session_id session_id).1 e))
      (All-of_keep (λ _. ⊥) (of_session session_id) t.snapshots
        (nearest_row-none target rows missing'))

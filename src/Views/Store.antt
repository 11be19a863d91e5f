-- ===== src/Views/Store.antt =====
-- saved_views/repository.py: the two repositories of saved views.
--
-- A repository in memory is a dictionary by id, a table in PostgreSQL one by its primary key. The
-- clock of the database, its collation and its LIKE are arguments.
use gamma_scope.Prelude.{
  ℕ, String, string_eq, Bool, true, ◌&&◌, not, Option, none, some, ltb, length, keep, [], ◌∷◌, ◌==◌,
  if◌then◌else◌, List, map,
}
use gamma_scope.Prelude.Order.{Ord, nat_ord, str_ord, dual, lex}
use gamma_scope.Prelude.Sort.{sorted}
use gamma_scope.Prelude.Dict.{Dict, put, values}
use gamma_scope.Replay.Effects.{Result, ok, Platform, Tx, joined}
use gamma_scope.Replay.Publish.{and_then, parse_time}
use gamma_scope.Replay.Reader.Values.{Value}

-- A view: the keys that the repositories read, and the others.
pub record View : Type 0 where
  pub view_id : String
  pub owner_scope : String
  pub name : String
  pub mode : String
  pub created_at : String
  pub others : Dict String Value

-- `_views`
abbrev pub Views : Type 0
Views = Dict String View

-- A row of `saved_views`; its primary key is the key of the dictionary.
pub record ViewRow : Type 0 where
  pub owner_scope : String
  pub name : String
  pub mode : String
  pub payload : View
  pub created_at : ℕ
  pub updated_at : ℕ

abbrev pub ViewTable : Type 0
ViewTable = Dict String ViewRow

-- `_normalized_view`
unfoldable pub normalized_view : Platform → View → Result View
normalized_view p v =
    and_then (parse_time p v.created_at) λ at. ok (record v { created_at = p.format_datetime at })

-- `InMemorySavedViewRepository.save_view`
unfoldable pub remember_view : Platform → View → Tx Views View
remember_view p v views =
    and_then (normalized_view p v)
      λ normalized. ok (normalized, put normalized.view_id normalized views)

abbrev pub view_row : ℕ → View → ℕ → ViewRow
view_row now v created_at = record {
  owner_scope = v.owner_scope;
  name = v.name;
  mode = v.mode;
  payload = v;
  created_at = created_at;
  updated_at = now;
}

-- `PostgresSavedViewRepository.save_view`: a conflict sets every column but the key.
unfoldable pub save_view : Platform → ℕ → View → Tx ViewTable View
save_view p now v table = and_then (normalized_view p v) λ normalized.
    and_then (parse_time p normalized.created_at) λ created_at.
      ok (normalized, put normalized.view_id (view_row now normalized created_at) table)

-- The filter of `cleanup_before`: the cutoff, and the prefix as a pattern.
abbrev pub has_prefix : (String → String → Bool) → Option String → String → Bool
has_prefix like none view_id = true
has_prefix like (some prefix) view_id = like view_id (joined (prefix ∷ "%" ∷ []))

abbrev pub is_cleaned : (String → String → Bool) → ℕ → Option String → String × ViewRow → Bool
is_cleaned like cutoff prefix (view_id, row) =
    ltb row.created_at cutoff && has_prefix like prefix view_id

-- `PostgresSavedViewRepository.cleanup_before`
unfoldable pub cleanup_before :
    (String → String → Bool) → ℕ → Bool → Option String → ViewTable → ℕ × ViewTable
cleanup_before like cutoff dry_run prefix table =
    let views_count = length (keep (is_cleaned like cutoff prefix) table) in
    (
      views_count,
      if dry_run then table else keep (λ row. not (is_cleaned like cutoff prefix row)) table,
    )

-- `PostgresSavedViewRepository.delete_view`
unfoldable pub delete_view : String → ViewTable → ViewTable
delete_view view_id table = keep (λ row. not (row.0 == view_id)) table

-- The order of a listing: the newest first, then by name and id.
abbrev pub listing_order : Ord String → Ord (ℕ × (String × String))
listing_order o = lex (dual nat_ord) (lex o o)

-- The views with the times that the key of `sorted` parses.
unfoldable pub with_times : Platform → List View → Result (List (ℕ × View))
with_times p [] = ok []
with_times p (v ∷ views) =
    and_then (parse_time p v.created_at)
      λ at. and_then (with_times p views) λ rest. ok ((at, v) ∷ rest)

abbrev pub view_key : ℕ × View → ℕ × (String × String)
view_key (at, v) = (at, (v.name, v.view_id))

-- `InMemorySavedViewRepository.list_views`: Python compares texts by code points.
unfoldable pub remembered_views : Platform → Views → Result (List View)
remembered_views p views =
    and_then (with_times p (values views))
      λ timed. ok (map (λ e. e.1) (sorted (listing_order str_ord) view_key timed))

abbrev pub row_key : String × ViewRow → ℕ × (String × String)
row_key (view_id, row) = (row.created_at, (row.name, view_id))

-- `PostgresSavedViewRepository.list_views`; the collation of the database is an argument.
unfoldable pub list_views : Ord String → ViewTable → List View
list_views collation table = map (λ e. e.1.payload) (sorted (listing_order collation) row_key table)

-- ===== src/Views/Refined.antt =====
-- The saved views: PostgreSQL against memory, and what a cleanup leaves.
use gamma_scope.Prelude.{
  ℕ, ◌<◌, ◌↔◌, String, string_eq, ◌≡◌, refl, ap, Bool, true, false, Option, none, some, [], ◌∷◌,
  arith,
}
use gamma_scope.Prelude.Deleted.{Deleted, keep-Deleted}
use gamma_scope.Prelude.Dict.{put}
use gamma_scope.Replay.Effects.{joined, Result, ok, err, Platform}
use gamma_scope.Replay.Publish.{and_then, parse_time}
use gamma_scope.Capture.Store.Summed.{RoundTrips}
use gamma_scope.Views.Store.{
  View, Views, ViewRow, ViewTable, normalized_view, remember_view, view_row, save_view, is_cleaned,
  cleanup_before,
}

-- The payloads of the table.
unfoldable pub payloads : ViewTable → Views
payloads [] = []
payloads ((view_id, row) ∷ table) = (view_id, row.payload) ∷ payloads table

payloads-put :
    (view_id : String) (row : ViewRow) (table : ViewTable)
    → payloads (put view_id row table) ≡ put view_id row.payload (payloads table)
unfolding payloads put
payloads-put view_id row [] = refl
payloads-put view_id row ((j, r) ∷ table) = ground (arith, payloads-put view_id row table)

abbrev pub in_memory : Result (View × ViewTable) → Result (View × Views)
in_memory r = and_then r λ (v, table). ok (v, payloads table)

after_time :
    (p : Platform) (now : ℕ) (v : View) (table : ViewTable) (r : Result ℕ)
    → RoundTrips p
    → in_memory (
        and_then
          (and_then r λ at. ok (record v { created_at = p.format_datetime at }))
          λ normalized. and_then (parse_time p normalized.created_at) λ created_at.
            ok (normalized, put normalized.view_id (view_row now normalized created_at) table))
      ≡ and_then
          (and_then r λ at. ok (record v { created_at = p.format_datetime at }))
          λ normalized. ok (normalized, put normalized.view_id normalized (payloads table))
after_time p now v table (err e) trips = refl
after_time p now v table (ok at) trips =
    let normalized : View = record v { created_at = p.format_datetime at } in
    rw (trips at) (
      ap (λ views. ok (normalized, views))
        (payloads-put v.view_id (view_row now normalized at) table))

-- Saving a view in PostgreSQL does what saving it in memory does: the same view is returned, and
-- the payloads of the table are then the views in memory, or the same error is raised. The
-- hypothesis is that the library parses a formatted datetime back.
pub save_view-Agrees :
    (p : Platform) (now : ℕ) (v : View) (table : ViewTable)
    → RoundTrips p
    → in_memory (save_view p now v table) ≡ remember_view p v (payloads table)
unfolding save_view remember_view normalized_view
save_view-Agrees p now v table trips = after_time p now v table (parse_time p v.created_at) trips

-- The views that a cleanup is to delete: created before the cutoff, with an id that has the prefix.
abbrev pub IsOld : (String → String → Bool) → ℕ → Option String → String × ViewRow → Type 0
IsOld like cutoff none (view_id, row) = row.created_at < cutoff
IsOld like cutoff (some prefix) (view_id, row) =
    (row.created_at < cutoff) × (like view_id (joined (prefix ∷ "%" ∷ [])) ≡ true)

is_cleaned_iff :
    (like : String → String → Bool) (cutoff : ℕ) (prefix : Option String) (e : String × ViewRow)
    → (is_cleaned like cutoff prefix e ≡ true) ↔ IsOld like cutoff prefix e
is_cleaned_iff like cutoff none e = ground arith
is_cleaned_iff like cutoff (some prefix) e = ground arith

module _ (like : String → String → Bool) (cutoff : ℕ) (prefix : Option String)
    (table : ViewTable) where
  -- A cleanup deletes exactly the rows that were created before the cutoff and whose id has the
  -- prefix, if one is given, leaves the others in their order and reports how many it deleted; a
  -- dry run reports the same number and changes nothing.
  pub cleanup_before-IsCounted :
      Deleted
        (IsOld like cutoff prefix)
        table
        (cleanup_before like cutoff false prefix table).0
        (cleanup_before like cutoff false prefix table).1
      × (cleanup_before like cutoff true prefix table
          ≡ ((cleanup_before like cutoff false prefix table).0, table))
  unfolding cleanup_before
  cleanup_before-IsCounted = (
    keep-Deleted (IsOld like cutoff prefix) (is_cleaned like cutoff prefix) table
        (is_cleaned_iff like cutoff prefix),
    refl,
  )

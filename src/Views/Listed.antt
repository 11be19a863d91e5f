-- ===== src/Views/Listed.antt =====
-- The listings of the saved views, in PostgreSQL and in memory.
use gamma_scope.Prelude.{
  ℕ, String, string_eq, nat_eq, ◌≡◌, refl, ◌∙◌, sym, some, [], ◌∷◌, All, inl, inr, Bool-cases, ◌==◌,
}
use gamma_scope.Prelude.Dict.{put}
use gamma_scope.Replay.Effects.{Result, ok, err, Platform}
use gamma_scope.Replay.Publish.{and_then, parse_time}
use gamma_scope.Capture.Store.Summed.{RoundTrips}
use gamma_scope.Views.Store.{View, ViewRow, ViewTable, normalized_view, view_row, save_view}

module _ (p : Platform) where
  -- The columns of a row are those of its payload.
  abbrev pub IsOfPayload : String × ViewRow → Type 0
  IsOfPayload (view_id, row) =
      (row.payload.view_id ≡ view_id)
      × (row.payload.name ≡ row.name)
      × (p.parse_datetime row.payload.created_at ≡ some row.created_at)
      × (row.payload.owner_scope ≡ row.owner_scope)
      × (row.payload.mode ≡ row.mode)

  abbrev pub IsStored : ViewTable → Type 0
  IsStored table = All IsOfPayload table

  put-IsStored :
      (view_id : String) (row : ViewRow) (table : ViewTable)
      → IsOfPayload (view_id, row)
      → IsStored table
      → IsStored (put view_id row table)
  unfolding put
  put-IsStored view_id row [] e h = (e, tt)
  put-IsStored view_id row ((j, r) ∷ table) e h = elim (Bool-cases (j == view_id)) [
    | inl same ↦
        rw same ((e.0 ∙ sym ((string_eq.test_iff j view_id).0 same), e.1, e.2, e.3, e.4), h.1)
    | inr other ↦ rw other (h.0, put-IsStored view_id row table e h.1)
  ]

  abbrev pub SavesIn : Result (View × ViewTable) → Type 0
  SavesIn (ok (v, table)) = IsStored table
  SavesIn (err e) = Unit

  after_time-SavesIn :
      (now : ℕ) (v : View) (table : ViewTable) (r : Result ℕ)
      → RoundTrips p
      → IsStored table
      → SavesIn (
          and_then
            (and_then r λ at. ok (record v { created_at = p.format_datetime at }))
            λ normalized. and_then (parse_time p normalized.created_at) λ created_at.
              ok (normalized, put normalized.view_id (view_row now normalized created_at) table))
  after_time-SavesIn now v table (err e) trips h = tt
  after_time-SavesIn now v table (ok at) trips h =
      let normalized : View = record v { created_at = p.format_datetime at } in
      rw (trips at) (
        put-IsStored v.view_id (view_row now normalized at) table (refl, refl, trips at, refl, refl)
          h)

  -- A saved view leaves a table whose columns are those of the payloads, when it was one before
  -- and the library parses a formatted datetime back. An error leaves no new table.
  pub save_view-SavesIn :
      (now : ℕ) (v : View) (table : ViewTable)
      → RoundTrips p
      → IsStored table
      → SavesIn (save_view p now v table)
  unfolding save_view normalized_view
  save_view-SavesIn now v table trips h =
      after_time-SavesIn now v table (parse_time p v.created_at) trips h

  abbrev timed : String × ViewRow → ℕ × View
  timed (view_id, row) = (row.created_at, row.payload)

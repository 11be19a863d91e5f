-- ===== src/Heatmap/Payload.antt =====
-- The payload of a heatmap, as heatmap/repository.py reads it, and the cells of its rows.
use gamma_scope.Prelude.{ℕ, ◌-◌, ◌%◌, String, string_eq, Option, none, some, List, [], ◌∷◌}
use gamma_scope.Prelude.Dict.{Dict, get, put}
use gamma_scope.Replay.Effects.{Result, ok, err, key_error, value_error, Platform}
use gamma_scope.Replay.Publish.{and_then, parse_time}
use gamma_scope.Replay.Reader.Values.{Value, Library}

-- A row of the payload: a dictionary, with the list under the key `tags` apart.
pub record HeatmapRow : Type 0 where
  pub fields : Dict String Value
  pub tags : Option (List String)

-- The payload: a dictionary, with the list under the key `rows` apart.
pub record Payload : Type 0 where
  pub fields : Dict String Value
  pub rows : Option (List HeatmapRow)

-- `payload.get("rows", [])`
abbrev pub rows_or_none : Option (List HeatmapRow) → List HeatmapRow
rows_or_none none = []
rows_or_none (some rows) = rows

abbrev pub rows_of : Payload → List HeatmapRow
rows_of payload = rows_or_none payload.rows

abbrev pub found_or_error : String → Option Value → Result Value
found_or_error key none = err (key_error key)
found_or_error key (some v) = ok v

-- `payload[key]`
abbrev pub value_at : String → Payload → Result Value
value_at key payload = found_or_error key (get key payload.fields)

-- The value of the first of the keys that is there.
abbrev pub or_next : Option Value → Option Value → Option Value
or_next none next = next
or_next (some v) next = some v

unfoldable pub first_value : List String → Dict String Value → Option Value
first_value [] fields = none
first_value (k ∷ keys) fields = or_next (get k fields) (first_value keys fields)

-- `_payload_value` without a default
abbrev pub payload_value : String → List String → Payload → Result Value
payload_value key keys payload = found_or_error key (first_value (key ∷ keys) payload.fields)

module _ (p : Platform) (lib : Library) where
  abbrev pub text_at : String → Payload → Result String
  text_at key payload = and_then (value_at key payload) λ v. ok (lib.str v)

  abbrev pub text_of : String → List String → Payload → Result String
  text_of key keys payload = and_then (payload_value key keys payload) λ v. ok (lib.str v)

  -- `_normalized_snapshot_payload`
  unfoldable pub normalized_payload : Payload → Result Payload
  normalized_payload payload = and_then (text_at "lastSyncedAt" payload) λ time.
      and_then (parse_time p time) λ at. ok (record payload {
        fields = put "lastSyncedAt" (Value.str (p.format_datetime at)) payload.fields;
      })

  abbrev pub float_or_error : Option ℕ → Result ℕ
  float_or_error none = err (value_error "could not convert to float")
  float_or_error (some x) = ok x

  abbrev pub float_of : Value → Result ℕ
  float_of v = float_or_error (lib.float_of v)

  abbrev pub some_float : Result ℕ → Result (Option ℕ)
  some_float (ok x) = ok (some x)
  some_float (err e) = err e

  -- `_row_float` of a dictionary; `None` stays.
  abbrev pub float_unless_null : Option Value → Result (Option ℕ)
  float_unless_null none = ok none
  float_unless_null (some Value.null) = ok none
  float_unless_null (some v) = some_float (float_of v)

  abbrev pub row_float : List String → HeatmapRow → Result (Option ℕ)
  row_float keys row = float_unless_null (first_value keys row.fields)

  -- `_row_strike` of a dictionary
  abbrev pub strike_or_none : Option Value → Result (Option ℕ)
  strike_or_none none = ok none
  strike_or_none (some v) = some_float (float_of v)

  abbrev pub row_strike : HeatmapRow → Result (Option ℕ)
  row_strike row = strike_or_none (get "strike" row.fields)

-- A row of `heatmap_cells`.
pub record Cell : Type 0 where
  pub heatmap_snapshot_id : ℕ
  pub strike : Option ℕ
  pub gex : Option ℕ
  pub vex : Option ℕ
  pub call_gex : Option ℕ
  pub put_gex : Option ℕ
  pub call_vex : Option ℕ
  pub put_vex : Option ℕ
  pub color_norm_gex : Option ℕ
  pub color_norm_vex : Option ℕ
  pub tags : List String
  pub payload : HeatmapRow

abbrev pub tags_or_none : Option (List String) → List String
tags_or_none none = []
tags_or_none (some tags) = tags

module _ (p : Platform) (lib : Library) where
  -- `_heatmap_cell_record`, with the columns that the insertion adds.
  unfoldable pub cell_record : ℕ → HeatmapRow → Result Cell
  cell_record id row = and_then (row_strike p lib row) λ strike.
      and_then (row_float p lib ("gex" ∷ []) row) λ gex.
        and_then (row_float p lib ("vex" ∷ []) row) λ vex.
          and_then (row_float p lib ("call_gex" ∷ "callGex" ∷ []) row) λ call_gex.
            and_then (row_float p lib ("put_gex" ∷ "putGex" ∷ []) row) λ put_gex.
              and_then (row_float p lib ("call_vex" ∷ "callVex" ∷ []) row) λ call_vex.
                and_then (row_float p lib ("put_vex" ∷ "putVex" ∷ []) row) λ put_vex.
                  and_then (row_float p lib ("color_norm_gex" ∷ "colorNormGex" ∷ []) row)
                    λ norm_gex.
                      and_then (row_float p lib ("color_norm_vex" ∷ "colorNormVex" ∷ []) row)
                        λ norm_vex. ok (record {
                          heatmap_snapshot_id = id;
                          strike = strike;
                          gex = gex;
                          vex = vex;
                          call_gex = call_gex;
                          put_gex = put_gex;
                          call_vex = call_vex;
                          put_vex = put_vex;
                          color_norm_gex = norm_gex;
                          color_norm_vex = norm_vex;
                          tags = tags_or_none row.tags;
                          payload = row;
                        })

-- `five_minute_bucket_start` of heatmap/normalization.py, of an instant in microseconds.
abbrev pub bucket_of : ℕ → ℕ
bucket_of at = at - at % 300000000

-- A session, a time and a position mode: the key of the snapshots and of the buckets.
abbrev pub five_minute_bucket_start : Platform → String → Result String
five_minute_bucket_start p value =
    and_then (parse_time p value) λ at. ok (p.format_datetime (bucket_of at))

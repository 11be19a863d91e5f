-- ===== src/Replay/Columns.antt =====
-- What the columns of replay_imports can hold: an INTEGER is below 2 ^ 31, and neither TEXT nor JSONB
-- takes the character NUL. Any other value is refused with a `DataError`.
use Prim.Native.Char.{code}
use gamma_scope.Prelude.{
  ℕ, String, Bool, true, false, not, ◌&&◌, Option, none, some, List, [], ◌∷◌, ltb, nat_beq,
}
use gamma_scope.Replay.Effects.{Error, Result, ok, err, data_error, Tx}
use gamma_scope.Replay.Tables.{Json, Items, Fields, Summary, Tables}

abbrev pub refused : Error
refused = data_error "value refused by its column"

abbrev pub fits_integer : ℕ → Bool
fits_integer n = ltb n 2147483648

unfoldable pub fits_text : String → Bool
fits_text String.[] = true
fits_text (String.◌∷◌ c s) = not (nat_beq (code c) 0) && fits_text s

abbrev pub fits_optional_text : Option String → Bool
fits_optional_text none = true
fits_optional_text (some s) = fits_text s

unfoldable pub fits_texts : List String → Bool
fits_texts [] = true
fits_texts (s ∷ texts) = fits_text s && fits_texts texts

unfoldable mutual
  pub fits_json : Json → Bool
  fits_json Json.null = true
  fits_json (Json.text s) = fits_text s
  fits_json (Json.num n) = true
  fits_json (Json.arr items) = fits_items items
  fits_json (Json.obj fields) = fits_fields fields

  pub fits_items : Items → Bool
  fits_items Items.nil = true
  fits_items (Items.cons v items) = fits_json v && fits_items items

  pub fits_fields : Fields → Bool
  fits_fields Fields.end = true
  fits_fields (Fields.field key v fields) = fits_text key && fits_json v && fits_fields fields

unfoldable pub fits_summary : Summary → Bool
fits_summary [] = true
fits_summary ((key, v) ∷ summary) = fits_text key && fits_json v && fits_summary summary

-- A row that is written, if the new values fit.
abbrev pub fitting : {A : Type 0} → Bool → A → Result A
fitting true a = ok a
fitting false a = err refused

-- A statement that is executed, if its values fit.
abbrev pub if_fits : {A : Type 0} → Bool → Tx Tables A → Tx Tables A
if_fits true m t = m t
if_fits false m t = err refused

-- ===== src/Heatmap/Columns.antt =====
-- What the columns of heatmap_oi_baselines can hold: an INTEGER is signed and has 32 bits, TEXT does
-- not take the character NUL, and a DATE is given as the code gives it, by `date.isoformat()`. Any
-- other value is refused. (PostgreSQL would read some other forms of a date as well.)
use Prim.Native.Char.{code}
use gamma_scope.Prelude.{
  ℕ, ◌+◌, ◌-◌, ◌*◌, ◌%◌, ℤ, pos, negsuc, String, string_eq, Bool, false, not, ◌&&◌, ◌||◌, ◌==◌,
  Option, none, some, [], ◌∷◌, ltb, leb, nat_beq, if◌then◌else◌,
}
use gamma_scope.Replay.Columns.{fits_texts}
use gamma_scope.Replay.Importer.{prefix}
use gamma_scope.Replay.Reader.Values.{text_length, suffix, char_at}
use gamma_scope.Heatmap.Records.{OiBaseline}

abbrev pub fits_integer : ℤ → Bool
fits_integer (pos n) = ltb n 2147483648
fits_integer (negsuc n) = ltb n 2147483648

-- The number of some digits, after those of a number.
unfoldable pub number_after : ℕ → String → Option ℕ
number_after n String.[] = some n
number_after n (String.◌∷◌ c s) =
    let rest = number_after (n * 10 + (code c - 48)) s in
    if leb 48 (code c) && leb (code c) 57 then rest else none

abbrev pub is_leap : ℕ → Bool
is_leap year = nat_beq (year % 4) 0 && (not (nat_beq (year % 100) 0) || nat_beq (year % 400) 0)

abbrev pub days_in : ℕ → ℕ → ℕ
days_in year month =
    if nat_beq month 2
    then if is_leap year then 29 else 28
    else if nat_beq month 4 || nat_beq month 6 || nat_beq month 9 || nat_beq month 11
    then 30
    else 31

abbrev pub is_day : Option ℕ → Option ℕ → Option ℕ → Bool
is_day (some year) (some month) (some day) =
    leb 1 year && leb 1 month && leb month 12 && leb 1 day && leb day (days_in year month)
is_day _ _ _ = false

unfoldable pub is_iso_date : String → Bool
unfolding number_after prefix suffix
is_iso_date s =
    nat_beq (text_length s) 10
    && char_at 4 s == "-"
    && char_at 7 s == "-"
    && is_day (number_after 0 (prefix 4 s)) (number_after 0 (prefix 2 (suffix 5 s)))
        (number_after 0 (suffix 8 s))

unfoldable pub baseline_fits : OiBaseline → Bool
unfolding is_iso_date
baseline_fits r =
    fits_integer r.open_interest
    && is_iso_date r.market_date
    && is_iso_date r.expiration_date
    && fits_texts (r.symbol ∷ r.trading_class ∷ r.contract_id ∷ r.right ∷ [])

-- ===== src/Replay/Effects.antt =====
-- How the replay code fails, commits and rolls back.
--
-- A repository method opens one connection in a `with` block: psycopg commits at its normal end
-- and rolls back on an exception. So a method is a function from tables to a result that carries
-- the new tables only when it returns (`Tx`). The importer runs several methods after another, and
-- what an earlier one committed stays when a later one raises (`Exec`).
use Prim.Native.String.{◌++◌ as str_append}
use gamma_scope.Prelude.{ℕ, String, Option, List, [], ◌∷◌}

-- The exceptions of the modelled code, with their messages.
pub data Error : Type 0 where
  key_error : String → Error
  value_error : String → Error
  -- psycopg's `UniqueViolation`
  unique_violation : String → Error
  -- `FileNotFoundError`, `FileExistsError` and `IOError` of the archive
  io_error : String → Error
  -- `OverflowError`
  overflow_error : String → Error
  -- psycopg's `DataError`: a value that its column cannot hold
  data_error : String → Error

pub data Result {ℓ} (A : Type ℓ) : Type ℓ where
  ok : A → Result A
  err : Error → Result A

-- `"".join(parts)`: an f-string with its parts.
unfoldable pub joined : List String → String
joined [] = ""
joined (s ∷ parts) = str_append s (joined parts)

-- What the code takes from Python's standard library: datetimes, `repr`, `str.lower` and SHA-256.
-- An instant is the number of microseconds in UTC since `datetime.min`, 0001-01-01.
pub record Platform : Type 0 where
  -- `datetime.fromisoformat(value.replace("Z", "+00:00"))` at UTC; `none` is a `ValueError`
  pub parse_datetime : String → Option ℕ
  pub format_datetime : ℕ → String
  pub repr : String → String
  pub lower : String → String
  pub sha256_hex : String → String

-- `str(exc)`: a `KeyError` shows the `repr` of its argument.
unfoldable pub str_of : Platform → Error → String
str_of p (key_error m) = p.repr m
str_of p (value_error m) = m
str_of p (unique_violation m) = m
str_of p (io_error m) = m
str_of p (overflow_error m) = m
str_of p (data_error m) = m

-- A method in one transaction over tables `S`.
abbrev pub Tx {ℓ} : Type 0 → Type ℓ → Type ℓ
Tx S A = S → Result (A × S)

-- A sequence of transactions: the tables come back beside an error too.
abbrev pub Exec {ℓ} : Type 0 → Type ℓ → Type ℓ
Exec S A = S → Result A × S

module _ {ℓ} {S : Type 0} {A : Type ℓ} where
  abbrev pub pure : A → Exec S A
  pure a s = (ok a, s)

  abbrev pub raise : Error → Exec S A
  raise e s = (err e, s)

  abbrev pub lift : Result A → Exec S A
  lift r s = (r, s)

  abbrev pub settle : Result (A × S) → S → Result A × S
  settle (ok (a, s')) s = (ok a, s')
  settle (err e) s = (err e, s)

  -- Commit, or roll back.
  abbrev pub transact : Tx S A → Exec S A
  transact m s = settle (m s) s

module _ {ℓ κ} {S : Type 0} {A : Type ℓ} {B : Type κ} where
  abbrev pub continue : Result A → (A → Exec S B) → Exec S B
  continue (ok a) f s = f a s
  continue (err e) f s = (err e, s)

  infixl 10 ◌>>=◌ ◌>>◌
  abbrev pub ◌>>=◌ : Exec S A → (A → Exec S B) → Exec S B
  ◌>>=◌ m f s = let (r, s') = m s in continue r f s'

  abbrev pub ◌>>◌ : Exec S A → Exec S B → Exec S B
  m >> n = m >>= λ _. n

-- ===== src/Moomoo/Chunks.antt =====
-- `chunked` of moomoo_config.py: the codes of a refresh, cut into requests.
use gamma_scope.Prelude.{ℕ, zero, suc, String, List, [], ◌∷◌, length, take, drop}
use gamma_scope.Replay.Effects.{Result, ok, err, value_error}

-- `items[index : index + size]` for each index of `range(0, len(items), size)`: a slice and the
-- slices of what stands behind it. The fuel is the number of items.
unfoldable pub slices : ℕ → ℕ → List String → List (List String)
slices zero size items = []
slices (suc fuel) size [] = []
slices (suc fuel) size (x ∷ xs) = take size (x ∷ xs) ∷ slices fuel size (drop size (x ∷ xs))

unfoldable pub chunked : List String → ℕ → Result (List (List String))
unfolding slices
chunked items zero = err (value_error "chunk size must be greater than zero")
chunked items (suc n) = ok (slices (length items) (suc n) items)

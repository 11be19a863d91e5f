-- ===== src/Moomoo/Examples.antt =====
-- The chunks of three codes, and a selection of strikes round a spot of 5.
use gamma_scope.Prelude.{
  ℕ, nat_eq, ◌+◌, ◌≤◌, ◌≡◌, true, some, String, List, [], ◌∷◌, All, length, get_elem?, leb, arith,
}
use gamma_scope.Prelude.Order.{nat_ord}
use gamma_scope.Replay.Queries.{distance}
use gamma_scope.Replay.Effects.{ok}
use gamma_scope.Moomoo.Chunks.{chunked}
use gamma_scope.Moomoo.Bounds.{joined_chunks, IsChunk, chunked-IsChunk}
use gamma_scope.Moomoo.Strikes.{select_atm_strikes}
use gamma_scope.Moomoo.Strikes.Window.{select_atm_strikes_nearest}

chunked-IsChunk_example :
    (chunks : List (List String)) × (chunked ("a" ∷ "b" ∷ "c" ∷ []) 2 ≡ ok chunks)
    × (joined_chunks chunks ≡ "a" ∷ "b" ∷ "c" ∷ [])
    × All (IsChunk 2) chunks
chunked-IsChunk_example = chunked-IsChunk ("a" ∷ "b" ∷ "c" ∷ []) 2 (omega arith)

abbrev to_spot : ℕ → ℕ
to_spot x = distance x 5

abbrev selected : List ℕ
selected = select_atm_strikes nat_ord nat_ord to_spot (9 ∷ 3 ∷ 4 ∷ 3 ∷ []) 1 1

select_atm_strikes_nearest_example :
    (m : ℕ) × (k : ℕ) × (get_elem? selected k ≡ some m)
    × All (λ x. leb (to_spot m) (to_spot x) ≡ true) (9 ∷ 3 ∷ 4 ∷ 3 ∷ [])
    × (length selected ≤ 1 + 1 + 1)
select_atm_strikes_nearest_example =
    select_atm_strikes_nearest nat_ord nat_ord to_spot 9 (3 ∷ 4 ∷ 3 ∷ []) 1 1

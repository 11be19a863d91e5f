-- ===== src/Moomoo/Bounds.antt =====
-- The chunks of `chunked` of moomoo_config.py against the items.
use gamma_scope.Prelude.{
  ℕ, zero, suc, ◌≤◌, ◌<◌, String, ◌≡◌, refl, ap, ◌∙◌, List, [], ◌∷◌, ◌++◌, length, take, drop, All,
  take-append-drop, length-take, length-drop, arith,
}
use gamma_scope.Replay.Effects.{ok}
use gamma_scope.Moomoo.Chunks.{slices, chunked}

-- The concatenation of the chunks.
unfoldable pub joined_chunks : List (List String) → List String
joined_chunks [] = []
joined_chunks (c ∷ cs) = c ++ joined_chunks cs

abbrev pub IsChunk : ℕ → List String → Type 0
IsChunk size c = (0 < length c) × (length c ≤ size)

slices-join :
    (fuel n : ℕ) (items : List String)
    → length items ≤ fuel
    → joined_chunks (slices fuel (suc n) items) ≡ items
unfolding slices joined_chunks
slices-join zero n [] h = refl
slices-join zero n (x ∷ xs) h = absurd (omega (arith, h))
slices-join (suc fuel) n [] h = refl
slices-join (suc fuel) n (x ∷ xs) h =
    ap (◌++◌ (take (suc n) (x ∷ xs)))
      (slices-join fuel n (drop n xs) (omega (arith, h, length-drop n xs)))
    ∙ take-append-drop (suc n) (x ∷ xs)

slices-IsChunk :
    (fuel n : ℕ) (items : List String) → All (IsChunk (suc n)) (slices fuel (suc n) items)
unfolding slices
slices-IsChunk zero n items = tt
slices-IsChunk (suc fuel) n [] = tt
slices-IsChunk (suc fuel) n (x ∷ xs) =
    ((omega arith, omega (arith, length-take n xs)), slices-IsChunk fuel n (drop n xs))

-- For a positive size the codes are cut into requests that are not empty, hold at most that many
-- codes, and together are the codes in their order.
pub chunked-IsChunk :
    (items : List String) (size : ℕ)
    → 0 < size
    → (chunks : List (List String)) × (chunked items size ≡ ok chunks)
      × (joined_chunks chunks ≡ items)
      × All (IsChunk size) chunks
unfolding chunked
chunked-IsChunk items zero h = absurd (omega (arith, h))
chunked-IsChunk items (suc n) h = (
  slices (length items) (suc n) items,
  refl,
  slices-join (length items) n items (omega arith),
  slices-IsChunk (length items) n items,
)

-- ===== src/Prelude/Deleted.antt =====
-- A list without the elements of a predicate, and how many these were: what a DELETE with a WHERE
-- does, told by a relation.
use mathlib.Core.Logic.{◌↔◌, inl, inr}
use mathlib.Core.Path.{◌≡◌}
use mathlib.Core.Bool.{Bool, true, not}
use mathlib.Core.List.{List, [], ◌∷◌}
use Prim.Native.Nat.{ℕ, suc}
use gamma_scope.Prelude.Tests.{Bool-cases}
use gamma_scope.Prelude.Lists.{keep, length}

pub data Deleted {A : Type 0} (Q : A → Type 0) : List A → ℕ → List A → Type 0 where
  end : Deleted Q [] 0 []
  gone : {x : A} {xs ys : List A} {n : ℕ} → Q x → Deleted Q xs n ys → Deleted Q (x ∷ xs) (suc n) ys
  kept :
      {x : A} {xs ys : List A} {n : ℕ} → ¬ Q x → Deleted Q xs n ys → Deleted Q (x ∷ xs) n (x ∷ ys)

-- A test that decides the predicate.
pub keep-Deleted :
    {A : Type 0} (Q : A → Type 0) (p : A → Bool) (xs : List A)
    → ((x : A) → (p x ≡ true) ↔ Q x)
    → Deleted Q xs (length (keep p xs)) (keep (λ x. not (p x)) xs)
keep-Deleted Q p [] h = end
keep-Deleted Q p (x ∷ xs) h = elim (Bool-cases (p x)) [
  | inl e ↦ rw e (gone ((h x).0 e) (keep-Deleted Q p xs h))
  | inr e ↦ rw e (kept (λ q. absurd (let k = (h x).1 q in cc)) (keep-Deleted Q p xs h))
]

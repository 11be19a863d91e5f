-- ===== src/Heatmap/Steps.antt =====
-- Chains of steps that may raise, in heatmap/repository.py.
use gamma_scope.Prelude.{◌≡◌}
use gamma_scope.Replay.Effects.{Result, ok, err}
use gamma_scope.Replay.Publish.{and_then}

pub ok_eq {ℓ} : {A : Type ℓ} (a b : A) → ok a ≡ ok b → a ≡ b
ok_eq a b h = cc

-- What a chain returns, if it returns.
abbrev pub Always {ℓ κ} : {A : Type ℓ} → (A → Type κ) → Result A → Type (ℓ ⊔ κ)
Always {A} P x = (a : A) → x ≡ ok a → P a

pub Always-bind {ℓ κ μ} :
    {A : Type ℓ} {B : Type κ} (P : B → Type μ) (x : Result A) (f : A → Result B)
    → ((a : A) → Always P (f a))
    → Always P (and_then x f)
Always-bind P (err e) f h b e' = absurd (cc)
Always-bind P (ok a) f h b e = h a b e

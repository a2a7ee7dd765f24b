-- ===== src/World/Answers.antt =====
-- What an action that ends well has answered.
use chain_route.Prelude.{◌≡◌, refl, ◌⊎◌, inl, inr, arith}
use chain_route.World.{Error, World, Env, Result, ok, err, M, ◌>>=◌}

pub Result-cases :
    {A : Type 0} (r : Result A) → ((e : Error) × (r ≡ err e)) ⊎ ((a : A) × (r ≡ ok a))
Result-cases (ok a) = inr (a, refl)
Result-cases (err e) = inl (e, refl)

-- An action that ends well went through its first part.
module _ {A B : Type 0} (m : M A) (f : A → M B) (env : Env) (w : World) where
  pub bind-ok :
      (b : B)
      → ((m >>= f) env w).0 ≡ ok b
      → (a : A) × ((m env w).0 ≡ ok a) × ((m >>= f) env w ≡ f a env (m env w).1)
  unfolding ◌>>=◌
  bind-ok b h = elim (Result-cases (m env w).0) [
    | inl (e, failed) ↦ ground arith
    | inr (a, fine) ↦ (a, fine, ground arith)
  ]

pub ok-injective : {A : Type 0} (x y : A) → ok x ≡ ok y → x ≡ y
ok-injective x y h = ground (arith, h)

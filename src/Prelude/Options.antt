-- ===== src/Prelude/Options.antt =====
-- Chains of checks, each of which may end with `none`.
use mathlib.Core.Path.{◌≡◌, refl}
use mathlib.Core.Option.{Option, none, some}
use mathlib.Core.Bool.{Bool, true, false}
use native.Mathlib.Omega.{arith}
use chain_route.Prelude.Tests.{if◌then◌else◌}

module _ {A B : Type 0} where
  unfoldable pub and_then : Option B → (B → Option A) → Option A
  and_then none k = none
  and_then (some b) k = k b

  pub and_then-some :
      (o : Option B) (k : B → Option A) (a : A)
      → and_then o k ≡ some a
      → (b : B) × (o ≡ some b) × (k b ≡ some a)
  unfolding and_then
  and_then-some none k a h = absurd (ground arith)
  and_then-some (some b) k a h = (b, refl, h)

module _ {A : Type 0} where
  unfoldable pub ensure : Bool → Option A → Option A
  ensure b k = if b then k else none

  pub ensure-some :
      (b : Bool) (k : Option A) (a : A) → ensure b k ≡ some a → (b ≡ true) × (k ≡ some a)
  unfolding ensure
  ensure-some false k a h = absurd (ground arith)
  ensure-some true k a h = (refl, h)

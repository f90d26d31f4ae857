-- ===== src/Prelude/Lists.antt =====
-- Lists over the native numbers, and predicates on lists by recursion.
use Prim.Native.Nat.{ℕ, zero, suc, ◌+◌}
use mathlib.Core.Path.{◌≡◌}
use mathlib.Core.Bool.{Bool, false, ◌||◌}
use mathlib.Core.List.{List, [], ◌∷◌, ◌++◌}
use native.Mathlib.Omega.{arith}
use achilles_sdk.Prelude.Equality.{Eq, ◌==◌}

module _ {ℓ} {A : Type ℓ} where
  abbrev pub length : List A → ℕ
  length [] = 0
  length (x ∷ xs) = suc (length xs)

  abbrev pub take : ℕ → List A → List A
  take zero xs = []
  take (suc n) [] = []
  take (suc n) (x ∷ xs) = x ∷ take n xs

  abbrev pub fold {κ} : {B : Type κ} → (B → A → B) → B → List A → B
  fold f b [] = b
  fold f b (x ∷ xs) = fold f (f b x) xs

  pub length-append : (xs ys : List A) → length (xs ++ ys) ≡ length xs + length ys
  length-append [] ys = omega arith
  length-append (x ∷ xs) ys = omega (arith, length-append xs ys)

-- Every member satisfies the predicate.
abbrev pub All {κ ℓ} : {X : Type κ} → (X → Type ℓ) → List X → Type (κ ⊔ ℓ)
All Q [] = Unit
All Q (u ∷ us) = Q u × All Q us

module _ {κ ℓ} {X : Type κ} (Q : X → Type ℓ) where
  pub All-append : (us vs : List X) → All Q us → All Q vs → All Q (us ++ vs)
  All-append [] vs first second = second
  All-append (u ∷ us) vs (q, first) second = (q, All-append us vs first second)

module _ {ℓ} {A : Type ℓ} ⦃e : Eq A⦄ where
  abbrev pub contains : List A → A → Bool
  contains [] item = false
  contains (u ∷ us) item = u == item || contains us item

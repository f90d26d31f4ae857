-- ===== src/Prelude/Equality.antt =====
-- Go's `==` on comparable types, as an interface with one operator.
use Prim.Native.Nat.{ℕ}
use Prim.Native.String.{String}
use mathlib.Core.Path.{◌≡◌, refl}
use mathlib.Core.Logic.{◌↔◌}
use mathlib.Core.Bool.{Bool, true}
use text.Mathlib.Text.{◌==◌ as str_eq}
use text.Mathlib.TextEquality.{eq_iff}
use achilles_sdk.Prelude.Tests.{nat_beq, nat_beq_iff}

-- `same` is the operator as a function, and `same_iff` says that it decides equality.
pub record Eq {κ} (X : Type κ) : Type κ where
  pub same : X → X → Bool
  pub same_iff : (x y : X) → (same x y ≡ true) ↔ (x ≡ y)

instance abbrev pub string_eq : Eq String
string_eq = record { same = str_eq; same_iff = eq_iff }

instance abbrev pub nat_eq : Eq ℕ
nat_eq = record { same = nat_beq; same_iff = nat_beq_iff }

infix 50 ◌==◌
abbrev pub ◌==◌ {κ} : {X : Type κ} ⦃eq : Eq X⦄ → X → X → Bool
◌==◌ ⦃eq⦄ = eq.same

pub beq_refl {κ} : {X : Type κ} ⦃eq : Eq X⦄ (x : X) → (x == x) ≡ true
beq_refl ⦃eq⦄ x = (eq.same_iff x x).1 refl

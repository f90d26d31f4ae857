-- ===== src/Prelude/Decimal.antt =====
-- `%d` of fmt for a number that is not negative, and the parts of a text that slashes separate.
use Prim.Native.Char.{Char, code}
use Prim.Native.Nat.{ℕ, zero, suc, ◌+◌, ◌/◌, ◌%◌}
use Prim.Native.String.{String, ◌++◌, slice}
use mathlib.Core.Path.{◌≡◌, refl, sym, ◌∙◌, ap, ap₂}
use mathlib.Core.Bool.{Bool, true, false, not, ◌&&◌}
use native.Mathlib.Omega.{arith}
use text.Mathlib.TextEquality.{Char-path}
use text.Mathlib.TextLemmas.{cons-append, head-eq_of_cons-eq, nil-append, tail-eq_of_cons-eq}
use achilles_sdk.Prelude.Tests.{ltb, nat_beq, if◌then◌else◌}
use achilles_sdk.Prelude.Text.{cons-cons, is_less, less, nil-cons}

-- A number has no more digits than its value and one.
unfoldable decimal_within : ℕ → ℕ → String
decimal_within zero n = ""
decimal_within (suc fuel) n =
    let before = decimal_within fuel (n / 10) in
    let last = slice "0123456789" (n % 10) (n % 10 + 1) in if ltb n 10 then last else before ++ last

unfoldable pub decimal : ℕ → String
unfolding decimal_within
decimal n = decimal_within (suc n) n

-- The text has no slash, as no name of a Kubernetes object and no namespace has.
abbrev pub plain : String → Bool
plain String.[] = true
plain (String.◌∷◌ c s) = not (nat_beq (code c) 47) && plain s

slash : (t : String) → ("/" ++ t) ≡ String.◌∷◌ "/" t
slash t = cons-append "/" "" t ∙ ap (λ u. String.◌∷◌ "/" u) (nil-append t)

module _ {c d : Char} {s t : String} (e : String.◌∷◌ c s ≡ String.◌∷◌ d t) where
  head : code c ≡ code d
  head = ap code (head-eq_of_cons-eq e)

  tail : s ≡ t
  tail = tail-eq_of_cons-eq e

-- The first part of a text whose parts are joined by slashes.
pub parts :
    (s t a b : String)
    → plain s ≡ true
    → plain t ≡ true
    → (s ++ ("/" ++ a)) ≡ (t ++ ("/" ++ b))
    → (s ≡ t) × (a ≡ b)
parts String.[] String.[] a b p q e =
    (refl, tail (sym (nil-append ("/" ++ a) ∙ slash a) ∙ e ∙ nil-append ("/" ++ b) ∙ slash b))
parts String.[] (String.◌∷◌ d t) a b p q e =
    ground (arith, head (sym (nil-append ("/" ++ a) ∙ slash a) ∙ e ∙ cons-append d t ("/" ++ b)))
parts (String.◌∷◌ c s) String.[] a b p q e =
    ground (arith, head (sym (cons-append c s ("/" ++ a)) ∙ e ∙ nil-append ("/" ++ b) ∙ slash b))
parts (String.◌∷◌ c s) (String.◌∷◌ d t) a b p q e =
    let e' : String.◌∷◌ c (s ++ ("/" ++ a)) ≡ String.◌∷◌ d (t ++ ("/" ++ b)) =
      sym (cons-append c s ("/" ++ a)) ∙ e ∙ cons-append d t ("/" ++ b) in
    let rest = parts s t a b (ground arith) (ground arith) (tail e') in
    (ap₂ (λ x y. String.◌∷◌ x y) (Char-path c d (head e')) rest.0, rest.1)

-- A text between two that begin with `p` begins with `p`.
pub between :
    (p a b k : String)
    → less k (p ++ a) ≡ false
    → less (p ++ b) k ≡ false
    → (c : String) × (k ≡ p ++ c)
between String.[] a b k u v = (k, sym (nil-append k))
between (String.◌∷◌ x p) a b String.[] u v =
    ground
      (arith, sym (ap (λ t. less "" t) (cons-append x p a) ∙ ap is_less (nil-cons x (p ++ a))) ∙ u)
between (String.◌∷◌ x p) a b (String.◌∷◌ y k) u v =
    let u' =
      sym (
        ap (λ t. less (String.◌∷◌ y k) t) (cons-append x p a)
        ∙ ap is_less (cons-cons y x k (p ++ a)))
      ∙ u in
    let v' =
      sym (
        ap (λ t. less t (String.◌∷◌ y k)) (cons-append x p b)
        ∙ ap is_less (cons-cons x y (p ++ b) k))
      ∙ v in
    let rest = between p a b k (ground (arith, u', v')) (ground (arith, u', v')) in
    (
      rest.0,
      ap₂ (λ c s. String.◌∷◌ c s) (Char-path y x (ground (arith, u', v'))) rest.1
          ∙ sym (cons-append x p rest.0),
    )

-- ===== src/Prelude/Text.antt =====
-- Go's `<` on strings: the native order of texts, which is that of their bytes for valid UTF-8.
use Prim.Native.Char.{Char, code}
use Prim.Native.Nat.{ℕ, Ordering}
use Prim.Native.Nat.{compare as compare_ℕ}
use Prim.Native.String.{String, compare, then}
use Prim.Native.String.{◌++◌}
use mathlib.Core.List.{List, [], ◌∷◌}
use Prim.Native.String.compare
use mathlib.Core.Path.{◌≡◌, refl, sym, ◌∙◌, ap, ap₂}
use mathlib.Core.Bool.{Bool, true, false}
use native.Mathlib.Omega.{arith}
use text.Mathlib.TextEquality.{path_by_compare}
use text.Mathlib.TextPositions.{compare_refl}

abbrev pub is_less : Ordering → Bool
is_less Ordering.lt = true
is_less Ordering.eq = false
is_less Ordering.gt = false

-- `s < t`
abbrev pub less : String → String → Bool
less s t = is_less (compare s t)

abbrev flip : Ordering → Ordering
flip Ordering.lt = Ordering.gt
flip Ordering.eq = Ordering.eq
flip Ordering.gt = Ordering.lt

compare_ℕ_flip : (m n : ℕ) → compare_ℕ m n ≡ flip (compare_ℕ n m)
compare_ℕ_flip m n = ground arith

flip-then : (a b : Ordering) → flip (then a b) ≡ then (flip a) (flip b)
flip-then Ordering.lt b = refl
flip-then Ordering.eq b = refl
flip-then Ordering.gt b = refl

-- The clauses of `compare`, as equations.
pub nil-cons : (d : Char) (t : String) → compare String.[] (String.◌∷◌ d t) ≡ Ordering.lt
nil-cons d t = compare.nil-cons d t

pub cons-nil : (c : Char) (s : String) → compare (String.◌∷◌ c s) String.[] ≡ Ordering.gt
cons-nil c s = compare.cons-nil c s

pub cons-cons :
    (c d : Char) (s t : String)
    → compare (String.◌∷◌ c s) (String.◌∷◌ d t) ≡ then (compare_ℕ (code c) (code d)) (compare s t)
cons-cons c d s t = compare.cons-cons c d s t

compare-flip : (s t : String) → compare s t ≡ flip (compare t s)
compare-flip String.[] String.[] = ap flip (sym (compare_refl ""))
compare-flip String.[] (String.◌∷◌ d t) = nil-cons d t ∙ sym (ap flip (cons-nil d t))
compare-flip (String.◌∷◌ c s) String.[] = cons-nil c s ∙ sym (ap flip (nil-cons c s))
compare-flip (String.◌∷◌ c s) (String.◌∷◌ d t) =
    cons-cons c d s t
    ∙ ap₂ then (compare_ℕ_flip (code c) (code d)) (compare-flip s t)
    ∙ sym (flip-then (compare_ℕ (code d) (code c)) (compare t s))
    ∙ sym (ap flip (cons-cons d c t s))

then_trans :
    (x y z : ℕ) (a b c : Ordering)
    → (is_less a ≡ true → is_less b ≡ true → is_less c ≡ true)
    → is_less (then (compare_ℕ x y) a) ≡ true
    → is_less (then (compare_ℕ y z) b) ≡ true
    → is_less (then (compare_ℕ x z) c) ≡ true
then_trans x y z a b c f p q = ground (arith, f)

pub less_trans : (r s t : String) → less r s ≡ true → less s t ≡ true → less r t ≡ true
less_trans String.[] String.[] t p q = q
less_trans String.[] (String.◌∷◌ d s) String.[] p q = cc (cons-nil d s)
less_trans String.[] (String.◌∷◌ d s) (String.◌∷◌ e t) p q = ap is_less (nil-cons e t)
less_trans (String.◌∷◌ c r) String.[] t p q = cc (cons-nil c r)
less_trans (String.◌∷◌ c r) (String.◌∷◌ d s) String.[] p q = cc (cons-nil d s)
less_trans (String.◌∷◌ c r) (String.◌∷◌ d s) (String.◌∷◌ e t) p q =
    ap is_less (cons-cons c e r t)
    ∙ then_trans (code c) (code d) (code e) (compare r s) (compare s t) (compare r t)
        (less_trans r s t) (sym (ap is_less (cons-cons c d r s)) ∙ p)
        (sym (ap is_less (cons-cons d e s t)) ∙ q)

pub less_irrefl : (s : String) → less s s ≡ false
less_irrefl s = ap is_less (compare_refl s)

pub less_total : (s t : String) → less s t ≡ false → less t s ≡ false → s ≡ t
less_total s t p q = path_by_compare s t (both (compare s t) (compare t s) (compare-flip s t) p q)
  where
    both : (a b : Ordering) → a ≡ flip b → is_less a ≡ false → is_less b ≡ false → a ≡ Ordering.eq
    both Ordering.lt b e p q = ground arith
    both Ordering.eq b e p q = refl
    both Ordering.gt Ordering.lt e p q = ground arith
    both Ordering.gt Ordering.eq e p q = ground arith
    both Ordering.gt Ordering.gt e p q = ground arith

-- `s + t`, over a list of parts.
unfoldable pub concat : List String → String
concat [] = ""
concat (s ∷ ss) = s ++ concat ss

-- `strings.Join(elems, sep)`
unfoldable pub join : List String → String → String
unfolding concat
join [] sep = ""
join (s ∷ []) sep = s
join (s ∷ t ∷ ss) sep = concat (s ∷ sep ∷ join (t ∷ ss) sep ∷ [])

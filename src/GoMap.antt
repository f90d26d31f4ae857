-- ===== src/GoMap.antt =====
-- Go's built-in `map[K]V` for a comparable key type. A map is the list of its entries in the order
-- in which `range` happens to visit them. Go leaves that order open, so what is proved for every
-- list of entries holds for every order of iteration. A nil map and an empty map read alike.
pub mod Laws
pub mod Size
use achilles_sdk.Prelude.{
  Bool, Eq, List, Option, [], false, if◌then◌else◌, is_some, none, some, ℕ, ◌==◌, ◌∷◌, ◌≡◌, length,
}

abbrev pub GoMap {ℓ κ} : Type ℓ → Type κ → Type (ℓ ⊔ κ)
GoMap K V = List (K × V)

module _ {ℓ κ} {K : Type ℓ} {V : Type κ} ⦃e : Eq K⦄ where
  -- `m[k]` with the two-value form's `ok` as `some`.
  unfoldable pub lookup : K → GoMap K V → Option V
  lookup key [] = none
  lookup key ((first, value) ∷ rest) = if first == key then some value else lookup key rest

  -- `_, ok := m[k]`
  unfoldable pub member : K → GoMap K V → Bool
  member k m = is_some (lookup k m)

  -- `m[k] = v`
  unfoldable pub insert : K → V → GoMap K V → GoMap K V
  insert key value [] = (key, value) ∷ []
  insert key value ((first, old) ∷ rest) =
      if first == key then (first, value) ∷ rest else (first, old) ∷ insert key value rest

  -- `delete(m, k)`
  unfoldable pub delete : K → GoMap K V → GoMap K V
  delete k [] = []
  delete k ((j, w) ∷ m) = let rest = delete k m in if j == k then rest else (j, w) ∷ rest

  -- `len(m)`
  abbrev pub size : GoMap K V → ℕ
  size = length

  -- What Go guarantees of a map: no key stands in it twice.
  abbrev pub IsMap : GoMap K V → Type 0
  IsMap [] = Unit
  IsMap ((k, v) ∷ m) = (member k m ≡ false) × IsMap m

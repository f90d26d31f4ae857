-- ===== src/Maps.antt =====
-- pkg/maps/maps.go. A map that is nil reads as an empty one, and a clone is the same list of entries.
pub mod Laws
use achilles_sdk.GoMap
use achilles_sdk.GoMap.{GoMap}
use achilles_sdk.Prelude.{Eq, [], nat_eq, string_eq, ◌∷◌}

module _ {ℓ κ} {K : Type ℓ} {V : Type κ} ⦃e : Eq K⦄ where
  -- `maps.Copy(dst, src)` of golang.org/x/exp/maps
  abbrev pub copy : GoMap K V → GoMap K V → GoMap K V
  copy dst [] = dst
  copy dst ((k, v) ∷ src) = copy (GoMap.insert k v dst) src

  unfoldable pub merge_maps : GoMap K V → GoMap K V → GoMap K V
  merge_maps a b = copy a b

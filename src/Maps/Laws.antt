-- ===== src/Maps/Laws.antt =====
-- The second map of a merge has the last word.
use achilles_sdk.GoMap
use achilles_sdk.GoMap.{GoMap, IsMap}
use achilles_sdk.GoMap.Laws.{lookup-insert}
use achilles_sdk.Maps.{copy, merge_maps}
use achilles_sdk.Prelude.{Eq, Option, [], arith, nat_eq, none, refl, some, string_eq, ◌∷◌, ◌≡◌}

-- The value that the second has, and otherwise that of the first.
abbrev pub or_else {κ} : {V : Type κ} → Option V → Option V → Option V
or_else none w = w
or_else (some v) w = some v

module _ {ℓ κ} {K : Type ℓ} {V : Type κ} ⦃e : Eq K⦄ where
  pub lookup-copy :
      (asked : K) (dst src : GoMap K V)
      → IsMap src
      → GoMap.lookup asked (copy dst src)
        ≡ or_else (GoMap.lookup asked src) (GoMap.lookup asked dst)
  unfolding GoMap.lookup GoMap.member
  lookup-copy asked dst [] distinct = refl
  lookup-copy asked dst ((k, v) ∷ src) (fresh, distinct) = ground (
    arith,
    lookup-copy asked (GoMap.insert k v dst) src distinct,
    lookup-insert k asked v dst,
    e.same_iff k asked,
    fresh,
  )

  pub lookup-merge_maps :
      (asked : K) (a b : GoMap K V)
      → IsMap b
      → GoMap.lookup asked (merge_maps a b) ≡ or_else (GoMap.lookup asked b) (GoMap.lookup asked a)
  unfolding merge_maps
  lookup-merge_maps asked a b distinct = lookup-copy asked a b distinct

-- ===== src/Fsm/Metrics/StartTimes/Ranges.antt =====
-- The early exits of the iterations lose nothing.
use achilles_sdk.Prelude.{
  All, Bool, List, [], ap, arith, false, if◌then◌else◌, map, nat_eq, none, refl, string_eq, true,
  ◌&&◌, ◌==◌, ◌∙◌, ◌∷◌, ◌≡◌,
}
use achilles_sdk.Fsm.Metrics.BTree.{find, Descending}
use achilles_sdk.Fsm.Metrics.StartTimes.{
  RequestStartTime, before, is_other, appended_times, appended_items,
}
use achilles_sdk.Fsm.Metrics.StartTimes.Keys.{IsPlain, alike_items, is_other_between}

-- The items that a test accepts.
abbrev pub filter {ℓ} : {A : Type ℓ} → (A → Bool) → List A → List A
filter p [] = []
filter p (x ∷ xs) = if p x then x ∷ filter p xs else filter p xs

-- The item is of the object of `key`.
abbrev pub is_of : RequestStartTime → RequestStartTime → Bool
is_of key item = item.name == key.name && item.namespace == key.namespace

-- What an iteration visits: items without slashes that are not above the pivot.
abbrev pub InReach : RequestStartTime → List RequestStartTime → Type 0
InReach key = All (λ x. IsPlain x × (before key x ≡ false))

others_follow :
    (key x : RequestStartTime) (xs : List RequestStartTime)
    → IsPlain key
    → IsPlain x
    → before key x ≡ false
    → is_other key x ≡ true
    → All (λ y. before y x ≡ true) xs
    → filter (is_of key) xs ≡ []
others_follow key x [] plain_key plain_x above other below = refl
others_follow key x (y ∷ ys) plain_key plain_x above other (first, below) = ground (
  arith,
  is_other_between key x y plain_key plain_x,
  others_follow key x ys plain_key plain_x above other below,
)

pub appended_items-filter :
    (key : RequestStartTime) (xs : List RequestStartTime)
    → IsPlain key
    → Descending before xs
    → InReach key xs
    → appended_items key xs ≡ filter (is_of key) xs
unfolding appended_items
appended_items-filter key [] plain_key descending reach = refl
appended_items-filter key (x ∷ xs) plain_key (below, descending) ((plain_x, above), reach) =
    ground (
      arith,
      appended_items-filter key xs plain_key descending reach,
      others_follow key x xs plain_key plain_x above,
    )

pub appended_times-map :
    (key : RequestStartTime) (xs : List RequestStartTime)
    → appended_times key true xs ≡ map (λ r. r.time) (appended_items key xs)
unfolding appended_times appended_items
appended_times-map key [] = refl
appended_times-map key (x ∷ xs) = ground (arith, appended_times-map key xs)

-- Among the items of DeleteRange one finds those that were visited, if they are of the object.
pub find-appended :
    (j key : RequestStartTime) (xs : List RequestStartTime)
    → IsPlain key
    → IsPlain j
    → Descending before xs
    → InReach key xs
    → find before j (appended_items key xs) ≡ (if is_of key j then find before j xs else none)
find-appended j key xs plain_key plain_j descending reach =
    ap (find before j) (appended_items-filter key xs plain_key descending reach) ∙ found xs reach
  where
    found :
        (xs : List RequestStartTime)
        → InReach key xs
        → find before j (filter (is_of key) xs) ≡ (if is_of key j then find before j xs else none)
    found [] reach = ground arith
    found (x ∷ xs) ((plain_x, above), reach) =
        ground (arith, alike_items x j plain_x plain_j, found xs reach)

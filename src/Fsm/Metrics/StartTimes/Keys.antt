-- ===== src/Fsm/Metrics/StartTimes/Keys.antt =====
-- The order of the start times by the text of their keys: the items of one object stand next to
-- each other.
use Prim.Native.String.{◌++◌ as ◌+++◌}
use mathlib.Core.Path.{ap₂}
use text.Mathlib.TextLemmas.{append_assoc as text_assoc}
use achilles_sdk.Prelude.{
  String, ap, arith, between, decimal, eq_iff, false, less, less_irrefl, less_total, less_trans,
  nat_eq, parts, plain, string_eq, sym, true, ◌∙◌, ◌≡◌,
}
use achilles_sdk.Fsm.Metrics.BTree.{alike}
use achilles_sdk.Fsm.Metrics.StartTimes.{RequestStartTime, key, before, is_other}

-- No slash in the namespace and none in the name.
abbrev pub IsPlain : RequestStartTime → Type 0
IsPlain r = (plain r.namespace ≡ true) × (plain r.name ≡ true)

-- What the items of one object share.
pub key_split :
    (r : RequestStartTime)
    → key r ≡ (r.namespace +++ ("/" +++ (r.name +++ "/"))) +++ decimal r.generation
unfolding key
key_split r =
    let d = decimal r.generation in
    ap (λ t. r.namespace +++ ("/" +++ t)) (sym (text_assoc r.name "/" d))
    ∙ ap (λ t. r.namespace +++ t) (sym (text_assoc "/" (r.name +++ "/") d))
    ∙ sym (text_assoc r.namespace ("/" +++ (r.name +++ "/")) d)

key_parts :
    (r : RequestStartTime) (namespace name rest : String)
    → IsPlain r
    → plain namespace ≡ true
    → plain name ≡ true
    → key r ≡ (namespace +++ ("/" +++ (name +++ "/"))) +++ rest
    → (r.namespace ≡ namespace) × (r.name ≡ name) × (decimal r.generation ≡ rest)
unfolding key
key_parts r namespace name rest (p, q) p' q' e =
    let outer : (r.namespace ≡ namespace)
        × (r.name +++ ("/" +++ decimal r.generation) ≡ name +++ ("/" +++ rest)) =
      parts r.namespace namespace (r.name +++ ("/" +++ decimal r.generation))
        (name +++ ("/" +++ rest)) p p'
        (e
          ∙ text_assoc namespace ("/" +++ (name +++ "/")) rest
          ∙ ap (λ t. namespace +++ t)
              (text_assoc "/" (name +++ "/") rest
                ∙ ap (λ t. "/" +++ t) (text_assoc name "/" rest))) in
    let inner = parts r.name name (decimal r.generation) rest q q' outer.1 in
    (outer.0, inner.0, inner.1)

-- Like items are of the same object, and their generations are written alike.
pub alike_items :
    (x y : RequestStartTime)
    → IsPlain x
    → IsPlain y
    → alike before x y ≡ true
    → (x.namespace ≡ y.namespace)
      × (x.name ≡ y.name)
      × (decimal x.generation ≡ decimal y.generation)
unfolding before
alike_items x y p q e =
    key_parts x y.namespace y.name (decimal y.generation) p q.0 q.1
      (less_total (key x) (key y) (ground (arith, e)) (ground (arith, e)) ∙ key_split y)

-- Nothing of another object stands between two items of one object.
pub is_other_between :
    (p x y : RequestStartTime)
    → IsPlain p
    → IsPlain x
    → is_other p y ≡ false
    → before p x ≡ false
    → before y x ≡ true
    → is_other p x ≡ false
unfolding before
is_other_between p x y plain_p plain_x same above below =
    let same_name : y.name ≡ p.name = ground (arith, eq_iff y.name p.name) in
    let same_namespace : y.namespace ≡ p.namespace =
      ground (arith, eq_iff y.namespace p.namespace) in
    let key_y : key y ≡ (p.namespace +++ ("/" +++ (p.name +++ "/"))) +++ decimal y.generation =
      key_split y
      ∙ ap₂ (λ s t. (s +++ ("/" +++ (t +++ "/"))) +++ decimal y.generation) same_namespace
          same_name in
    let common =
      between (p.namespace +++ ("/" +++ (p.name +++ "/"))) (decimal y.generation)
        (decimal p.generation) (key x)
        (ap (λ t. less (key x) t) (sym key_y)
          ∙ ground (arith, less_trans (key y) (key x) (key y), less_irrefl (key y)))
        (ap (λ t. less t (key x)) (sym (key_split p)) ∙ above) in
    let split = key_parts x p.namespace p.name common.0 plain_x plain_p.0 plain_p.1 common.1 in
    ground (arith, split, eq_iff x.name p.name, eq_iff x.namespace p.namespace)

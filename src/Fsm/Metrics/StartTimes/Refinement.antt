-- ===== src/Fsm/Metrics/StartTimes/Refinement.antt =====
-- The start times as a map from objects and generations to times, and the operations on the tree as
-- operations on that map.
use Prim.Native.String.{◌++◌ as ◌+++◌}
use mathlib.Core.Path.{ap₂}
use text.Mathlib.TextLemmas.{cons-append, nil-append}
use achilles_sdk.Prelude.{
  All, List, Option, String, [], ap, arith, cons-cons, decimal, eq_iff, if◌then◌else◌, is_less,
  less, less_irrefl, less_total, ltb, nat_eq, none, not, plain, some, string_eq, true, ℕ, ◌&&◌,
  ◌==◌, ◌∙◌, ◌∷◌, ◌≡◌,
}
use achilles_sdk.Fsm.Metrics.BTree.{alike, BTree}
use achilles_sdk.Fsm.Metrics.StartTimes.{
  RequestStartTime, key, before, asked_for, delete_range, set,
}
use achilles_sdk.Fsm.Metrics.StartTimes.Keys.{IsPlain, alike_items, key_split}
use achilles_sdk.Fsm.Metrics.StartTimes.Laws.{
  IsPlainTree, get-alike, get-delete_range, get-set, kept_by_delete_range,
}

-- The time at which the work on a generation of an object began, by name and namespace.
abbrev pub Starts : Type 0
Starts = String → String → ℕ → Option ℕ

-- What the metrics do to the times: SetRangeFailed changes none.
pub data Change : Type 0 where
  set_start : String → String → ℕ → ℕ → Change
  delete_starts : String → String → ℕ → Change

-- The names that the change is for have no slash.
abbrev pub IsPlainChange : Change → Type 0
IsPlainChange (set_start name namespace g time) = (plain namespace ≡ true) × (plain name ≡ true)
IsPlainChange (delete_starts name namespace g) = (plain namespace ≡ true) × (plain name ≡ true)

-- The earlier of the new time and the old one.
abbrev earliest : ℕ → Option ℕ → ℕ
earliest new none = new
earliest new (some old) = if ltb new old then new else old

-- The changes of the map. Generations are compared by their decimal texts, as the code does.
abbrev pub change : Change → Starts → Starts
change (set_start name namespace g time) s name' namespace' g' =
    if name == name' && namespace == namespace' && decimal g == decimal g'
    then some (earliest time (s name' namespace' g'))
    else s name' namespace' g'
change (delete_starts name namespace g) s name' namespace' g' =
    if name == name' && namespace == namespace' && not (less (decimal g) (decimal g'))
    then none
    else s name' namespace' g'

abbrev pub changes : List Change → Starts → Starts
changes [] s = s
changes (c ∷ cs) s = changes cs (change c s)

less-append : (p s t : String) → less (p +++ s) (p +++ t) ≡ less s t
less-append String.[] s t = ap₂ less (nil-append s) (nil-append t)
less-append (String.◌∷◌ c p) s t =
    ap₂ less (cons-append c p s) (cons-append c p t)
    ∙ ap is_less (cons-cons c c (p +++ s) (p +++ t))
    ∙ ground (arith, less-append p s t)

pub before-same :
    (x y : RequestStartTime)
    → x.namespace ≡ y.namespace
    → x.name ≡ y.name
    → before x y ≡ less (decimal x.generation) (decimal y.generation)
unfolding before
before-same x y p q =
    ap₂ less (key_split x ∙ ap₂ (λ m n. (m +++ ("/" +++ (n +++ "/"))) +++ decimal x.generation) p q)
      (key_split y)
    ∙ less-append (y.namespace +++ ("/" +++ (y.name +++ "/"))) (decimal x.generation)
        (decimal y.generation)

alike_lem :
    (x y : RequestStartTime)
    → IsPlain x
    → IsPlain y
    → alike before x y ≡ (
        x.name == y.name
        && x.namespace == y.namespace
        && decimal x.generation == decimal y.generation)
alike_lem x y p q = ground (
  arith,
  alike_items x y p q,
  before-same x y,
  before-same y x,
  eq_iff x.name y.name,
  eq_iff x.namespace y.namespace,
  eq_iff (decimal x.generation) (decimal y.generation),
  less_irrefl (decimal x.generation),
)

-- The time of an item that may be missing.
abbrev pub time_of : Option RequestStartTime → Option ℕ
time_of none = none
time_of (some x) = some x.time

module _ (b : BTree before) where
  -- `ProcessingStartTimes` after a change
  abbrev pub apply_change : Change → b.Tree → b.Tree
  apply_change (set_start name namespace g time) t = set b name namespace g time t
  apply_change (delete_starts name namespace g) t = delete_range b name namespace g t

  abbrev pub apply_changes : List Change → b.Tree → b.Tree
  apply_changes [] t = t
  apply_changes (c ∷ cs) t = apply_changes cs (apply_change c t)

  -- The tree holds the times of the map, for names without slashes, and no name with one.
  abbrev pub Implements : b.Tree → Starts → Type 0
  Implements t s =
      IsPlainTree b t
      × ((name namespace : String) (g : ℕ)
          → plain namespace ≡ true
          → plain name ≡ true
          → time_of (b.get (asked_for name namespace g) t) ≡ s name namespace g)

  found_alike :
      (i j : RequestStartTime) (t : b.Tree) → alike before i j ≡ true → b.get i t ≡ b.get j t
  unfolding before
  found_alike i j t e =
      get-alike b i j t (less_total (key i) (key j) (ground (arith, e)) (ground (arith, e)))

  change-Implements :
      (c : Change) (t : b.Tree) (s : Starts)
      → IsPlainChange c
      → Implements t s
      → Implements (apply_change c t) (change c s)
  change-Implements (set_start name namespace g time) t s plain_c (plain_t, same) = (
    λ j x e. ground (arith, get-set b j name namespace g time t, plain_t j x, plain_c, e),
    λ name' namespace' g' p q. ground (
      arith,
      get-set b (asked_for name' namespace' g') name namespace g time t,
      alike_lem (asked_for name namespace g) (asked_for name' namespace' g') plain_c (p, q),
      found_alike (asked_for name namespace g) (asked_for name' namespace' g') t,
      same name' namespace' g' p q,
    ),
  )
  change-Implements (delete_starts name namespace g) t s plain_c (plain_t, same) = (
    λ j x e. plain_t j x (kept_by_delete_range b j x name namespace g t e),
    λ name' namespace' g' p q. ground (
      arith,
      get-delete_range b (asked_for name' namespace' g') name namespace g t (p, q) plain_c plain_t,
      before-same (asked_for name namespace g) (asked_for name' namespace' g'),
      eq_iff name name',
      eq_iff name' name,
      eq_iff namespace namespace',
      eq_iff namespace' namespace,
      same name' namespace' g' p q,
    ),
  )

  -- The tree after any changes for names without slashes, starting with the empty tree.
  pub changes-Implements :
      (cs : List Change)
      → All IsPlainChange cs
      → Implements (apply_changes cs b.empty) (changes cs (λ name namespace g. none))
  changes-Implements cs plain =
      from_here cs b.empty (λ name namespace g. none) plain
        (
          λ j x e. ground (arith, b.get-empty j),
          λ name namespace g p q. ap time_of (b.get-empty (asked_for name namespace g)),
        )
    where
      from_here :
          (cs : List Change) (t : b.Tree) (s : Starts)
          → All IsPlainChange cs
          → Implements t s
          → Implements (apply_changes cs t) (changes cs s)
      from_here [] t s plain i = i
      from_here (c ∷ cs) t s (first, plain) i =
          from_here cs (apply_change c t) (change c s) plain (change-Implements c t s first i)

  -- Whatever calls of Set and DeleteRange are made one after the other, for names without slashes
  -- and starting from no start times, the tree holds for each name without slashes the time that a
  -- map from names and generations holds after the same changes: Set keeps the earlier time, and
  -- DeleteRange forgets the generations whose decimal texts do not come after the given one's.
  pub start_times_refine :
      (cs : List Change) (name namespace : String) (g : ℕ)
      → All IsPlainChange cs
      → plain namespace ≡ true
      → plain name ≡ true
      → time_of (b.get (asked_for name namespace g) (apply_changes cs b.empty))
        ≡ changes cs (λ name namespace g. none) name namespace g
  start_times_refine cs name namespace g plain_cs p q =
      (changes-Implements cs plain_cs).1 name namespace g p q

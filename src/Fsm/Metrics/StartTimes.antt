-- ===== src/Fsm/Metrics/StartTimes.antt =====
-- pkg/fsm/metrics/internal/processing_duration.go: when the work on a generation of an object
-- began. A generation is a number that is not negative. The lock, which makes each operation
-- atomic, has no counterpart.
pub mod Keys
pub mod Ranges
pub mod Laws
pub mod Failures
pub mod Refinement
pub mod CountedOnce
pub mod Deleted
pub mod TextOrder
use Prim.Native.String.{◌++◌ as ◌+++◌}
use achilles_sdk.Fsm.Metrics.BTree.{BTree}
use achilles_sdk.Prelude.{
  Bool, List, Option, String, [], decimal, false, if◌then◌else◌, less, ltb, nat_eq, none, not, some,
  string_eq, true, ℕ, ◌&&◌, ◌==◌, ◌||◌, ◌∷◌,
}

pub record RequestStartTime : Type 0 where
  pub namespace : String
  pub name : String
  pub generation : ℕ
  pub time : ℕ
  pub failed : Bool

-- `key`, which formats with "%s/%s/%d"
unfoldable pub key : RequestStartTime → String
key r = r.namespace +++ ("/" +++ (r.name +++ ("/" +++ decimal r.generation)))

unfoldable pub before : RequestStartTime → RequestStartTime → Bool
unfolding key
before req1 req2 = less (key req1) (key req2)

-- The item that the operations look for.
abbrev pub asked_for : String → String → ℕ → RequestStartTime
asked_for name namespace generation = record {
  namespace = namespace;
  name = name;
  generation = generation;
  time = 0;
  failed = false;
}

-- The callbacks' first test: the item is not of the object asked for.
abbrev pub is_other : RequestStartTime → RequestStartTime → Bool
is_other key item = not (item.name == key.name) || not (item.namespace == key.namespace)

-- The callback of GetRange on the items in front of the iteration: the times appended.
unfoldable pub appended_times : RequestStartTime → Bool → List RequestStartTime → List ℕ
appended_times key success [] = []
appended_times key success (item ∷ rest) =
    let later = appended_times key success rest in
    if is_other key item then [] else if not success && item.failed then [] else item.time ∷ later

-- The callback of DeleteRange: the items appended.
unfoldable pub appended_items : RequestStartTime → List RequestStartTime → List RequestStartTime
appended_items key [] = []
appended_items key (item ∷ rest) =
    let later = appended_items key rest in if is_other key item then [] else item ∷ later

module _ (b : BTree before) where
  unfoldable pub get_range : String → String → ℕ → Bool → b.Tree → List ℕ
  unfolding appended_times
  get_range name namespace observed_generation success tree =
      let key = asked_for name namespace observed_generation in
      appended_times key success (b.descend_less_or_equal key tree)

  unfoldable pub delete_all : List RequestStartTime → b.Tree → b.Tree
  delete_all [] tree = tree
  delete_all (item ∷ items) tree = delete_all items (b.delete item tree)

  unfoldable pub delete_range : String → String → ℕ → b.Tree → b.Tree
  unfolding appended_items delete_all
  delete_range name namespace observed_generation tree =
      let key = asked_for name namespace observed_generation in
      delete_all (appended_items key (b.descend_less_or_equal key tree)) tree

  -- `!ok || startTime.Before(current.Time)`
  abbrev pub is_earlier : ℕ → Option RequestStartTime → Bool
  is_earlier start_time none = true
  is_earlier start_time (some current) = ltb start_time current.time

  unfoldable pub set : String → String → ℕ → ℕ → b.Tree → b.Tree
  set name namespace observed_generation start_time tree =
      let key = asked_for name namespace observed_generation in
      if is_earlier start_time (b.get key tree)
      then b.replace_or_insert
          (record {
            namespace = namespace;
            name = name;
            generation = observed_generation;
            time = start_time;
            failed = false;
          })
          tree
      else tree

  -- The callback of SetRangeFailed on one item: the tree after it, and whether to go on.
  unfoldable pub fail_item : RequestStartTime → RequestStartTime → b.Tree → b.Tree × Bool
  fail_item key item tree =
      if is_other key item
      then (tree, false)
      else if item.failed
      then (tree, false)
      else (b.replace_or_insert (record item { failed = true }) tree, true)

  unfoldable pub set_range_failed : String → String → ℕ → b.Tree → b.Tree
  unfolding fail_item
  set_range_failed name namespace observed_generation tree =
      let key = asked_for name namespace observed_generation in
      b.descend_updating key (fail_item key) tree

-- ===== src/Fsm/Metrics/BTree.antt =====
-- What the start times use of google/btree, which is not part of the repository. `less` is the order
-- that the tree is made with. Two items are alike if neither is less than the other: a tree holds
-- at most one of them.
use achilles_sdk.Prelude.{
  All, Bool, List, Option, [], false, if◌then◌else◌, nat_eq, none, not, some, string_eq, true, ◌&&◌,
  ◌∷◌, ◌≡◌,
}

module _ {X : Type 0} (less : X → X → Bool) where
  abbrev pub alike : X → X → Bool
  alike x y = not (less x y) && not (less y x)

  -- The item of a list that is like the given one.
  abbrev pub find : X → List X → Option X
  find j [] = none
  find j (x ∷ xs) = if alike x j then some x else find j xs

  -- Each item is less than those before it.
  abbrev pub Descending : List X → Type 0
  Descending [] = Unit
  Descending (x ∷ xs) = All (λ y. less y x ≡ true) xs × Descending xs

-- The operations of a tree, and what they promise: `Get` finds the item last inserted and not
-- deleted since, and `DescendLessOrEqual` visits, in descending order, the stored items that are
-- not greater than the pivot.
pub record BTree {X : Type 0} (less : X → X → Bool) : Type 1 where
  pub Tree : Type 0
  pub empty : Tree
  pub get : X → Tree → Option X
  pub replace_or_insert : X → Tree → Tree
  pub delete : X → Tree → Tree
  pub descend_less_or_equal : X → Tree → List X
  -- `DescendLessOrEqual` with a callback that changes the tree and says whether to go on. What is
  -- visited then is not documented, so nothing is promised of it.
  pub descend_updating : X → (X → Tree → Tree × Bool) → Tree → Tree
  pub get-empty : (j : X) → get j empty ≡ none
  pub get-replace_or_insert :
      (j x : X) (t : Tree)
      → get j (replace_or_insert x t) ≡ (if alike less x j then some x else get j t)
  pub get-delete :
      (j x : X) (t : Tree) → get j (delete x t) ≡ (if alike less x j then none else get j t)
  pub visited_descend : (pivot : X) (t : Tree) → Descending less (descend_less_or_equal pivot t)
  pub visited_are_stored :
      (pivot : X) (t : Tree)
      → All (λ x. (get x t ≡ some x) × (less pivot x ≡ false)) (descend_less_or_equal pivot t)
  pub stored_are_visited :
      (j pivot : X) (t : Tree)
      → find less j (descend_less_or_equal pivot t) ≡ (if less pivot j then none else get j t)

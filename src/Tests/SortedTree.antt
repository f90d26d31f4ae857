-- ===== src/Tests/SortedTree.antt =====
-- A tree of google/btree's kind: the items in a list in descending order.
mod StartTimeRuns
mod Series
mod MetricRuns
mod BuilderRuns
use achilles_sdk.Prelude.{
  All, Bool, Bool-cases, List, Option, String, [], arith, false, if◌then◌else◌, inl, inr, less,
  less_irrefl, less_total, less_trans, nat_eq, none, refl, some, string_eq, true, ◌∷◌, ◌≡◌,
}
use achilles_sdk.Fsm.Metrics.BTree.{BTree, Descending, alike, find}
use achilles_sdk.Fsm.Metrics.StartTimes.{before, key}

module _ {X : Type 0} (text : X → String) where
  abbrev by_text : X → X → Bool
  by_text x y = less (text x) (text y)

  record SortedList : Type 0 where
    items : List X
    sorted : Descending by_text items

  abbrev insert_item : X → List X → List X
  insert_item x [] = x ∷ []
  insert_item x (u ∷ us) =
      let rest = insert_item x us in
      if alike by_text x u then x ∷ us else if by_text u x then x ∷ u ∷ us else u ∷ rest

  abbrev delete_item : X → List X → List X
  delete_item x [] = []
  delete_item x (u ∷ us) = let rest = delete_item x us in if alike by_text x u then us else u ∷ rest

  abbrev from_pivot : X → List X → List X
  from_pivot p [] = []
  from_pivot p (u ∷ us) = let rest = from_pivot p us in if by_text p u then rest else u ∷ us

  insert-below :
      (u x : X) (us : List X)
      → All (λ y. by_text y u ≡ true) us
      → by_text x u ≡ true
      → All (λ y. by_text y u ≡ true) (insert_item x us)
  insert-below u x [] below first = (first, tt)
  insert-below u x (v ∷ us) (here, below) first = ground (arith, insert-below u x us below first)

  lower_bound :
      (u v : X) (us : List X)
      → All (λ y. by_text y u ≡ true) us
      → by_text v u ≡ false
      → All (λ y. by_text y v ≡ true) us
  lower_bound u v [] below e = tt
  lower_bound u v (w ∷ us) (first, below) e = (
    ground (arith, less_trans (text w) (text u) (text v), less_total (text u) (text v), first, e),
    lower_bound u v us below e,
  )

  insert-Descending :
      (x : X) (us : List X) → Descending by_text us → Descending by_text (insert_item x us)
  insert-Descending x [] sorted = (tt, tt)
  insert-Descending x (u ∷ us) (below, sorted) = ground (
    arith,
    insert-Descending x us sorted,
    insert-below u x us below,
    lower_bound u x us below,
    less_trans (text x) (text u) (text x),
    less_irrefl (text x),
    less_total (text u) (text x),
  )

  delete-below :
      (u x : X) (us : List X)
      → All (λ y. by_text y u ≡ true) us
      → All (λ y. by_text y u ≡ true) (delete_item x us)
  delete-below u x [] below = tt
  delete-below u x (v ∷ us) (here, below) = ground (arith, delete-below u x us below)

  delete-Descending :
      (x : X) (us : List X) → Descending by_text us → Descending by_text (delete_item x us)
  delete-Descending x [] sorted = tt
  delete-Descending x (u ∷ us) (below, sorted) =
      ground (arith, delete-Descending x us sorted, delete-below u x us below)

  from-Descending :
      (x : X) (us : List X) → Descending by_text us → Descending by_text (from_pivot x us)
  from-Descending x [] sorted = tt
  from-Descending x (u ∷ us) (below, sorted) =
      ground (arith, from-Descending x us sorted, below, sorted)

  find-insert :
      (j x : X) (us : List X)
      → find by_text j (insert_item x us)
        ≡ (if alike by_text x j then some x else find by_text j us)
  find-insert j x [] = refl
  find-insert j x (u ∷ us) = ground (
    arith,
    find-insert j x us,
    less_total (text x) (text j),
    less_total (text u) (text j),
    less_irrefl (text j),
    less_irrefl (text u),
    less_irrefl (text x),
  )

  find_above :
      (j u : X) (us : List X)
      → All (λ y. by_text y u ≡ true) us
      → by_text j u ≡ false
      → find by_text j us ≡ none
  find_above j u [] below e = refl
  find_above j u (v ∷ us) (first, below) e =
      ground (arith, find_above j u us below e, less_total (text v) (text j), first, e)

  find-delete :
      (j x : X) (us : List X)
      → Descending by_text us
      → find by_text j (delete_item x us) ≡ (if alike by_text x j then none else find by_text j us)
  find-delete j x [] sorted = ground arith
  find-delete j x (u ∷ us) (below, sorted) = ground (
    arith,
    find-delete j x us sorted,
    find_above j u us below,
    less_total (text x) (text j),
    less_total (text u) (text j),
    less_total (text x) (text u),
    less_irrefl (text j),
  )

  find-from :
      (j p : X) (us : List X)
      → Descending by_text us
      → find by_text j (from_pivot p us) ≡ (if by_text p j then none else find by_text j us)
  find-from j p [] sorted = ground arith
  find-from j p (u ∷ us) (below, sorted) = ground (
    arith,
    find-from j p us sorted,
    find_above j u us below,
    less_total (text u) (text j),
    less_trans (text p) (text j) (text u),
    less_trans (text u) (text p) (text j),
    less_total (text p) (text u),
  )

  each_found : (us : List X) → Descending by_text us → All (λ x. find by_text x us ≡ some x) us
  each_found [] sorted = tt
  each_found (u ∷ us) (below, sorted) =
      (ground (arith, less_irrefl (text u)), keep us below (each_found us sorted))
    where
      keep :
          (vs : List X)
          → All (λ y. by_text y u ≡ true) vs
          → All (λ x. find by_text x us ≡ some x) vs
          → All (λ x. find by_text x (u ∷ us) ≡ some x) vs
      keep [] b f = tt
      keep (v ∷ vs) (b, bs) (f, fs) = (ground (arith, b, f), keep vs bs fs)

  from-All :
      (p : X) (us : List X) (f : X → Option X)
      → Descending by_text us
      → All (λ x. f x ≡ some x) us
      → All (λ x. (f x ≡ some x) × (by_text p x ≡ false)) (from_pivot p us)
  from-All p [] f sorted found = tt
  from-All p (u ∷ us) f (below, sorted) (here, found) = elim (Bool-cases (by_text p u)) [
    | inl e ↦ ground (arith, e, from-All p us f sorted found)
    | inr e ↦ ground (arith, e, here, rest us below found e)
  ]
    where
      rest :
          (vs : List X)
          → All (λ y. by_text y u ≡ true) vs
          → All (λ x. f x ≡ some x) vs
          → by_text p u ≡ false
          → All (λ x. (f x ≡ some x) × (by_text p x ≡ false)) vs
      rest [] b g e = tt
      rest (v ∷ vs) (b, bs) (g, gs) e =
          ((g, ground (arith, less_trans (text p) (text v) (text u), b, e)), rest vs bs gs e)

  -- An iteration over the items found at its start.
  abbrev visit_each : (X → SortedList → SortedList × Bool) → List X → SortedList → SortedList
  visit_each f [] t = t
  visit_each f (x ∷ xs) t =
      let (t', goes_on) = f x t in let rest = visit_each f xs t' in if goes_on then rest else t'

  unfoldable sorted_tree : BTree by_text
  sorted_tree = record {
    Tree = SortedList;
    empty = record { items = []; sorted = tt };
    get = λ j t. find by_text j t.items;
    replace_or_insert = λ x t. record {
      items = insert_item x t.items;
      sorted = insert-Descending x t.items t.sorted;
    };
    delete = λ x t. record {
      items = delete_item x t.items;
      sorted = delete-Descending x t.items t.sorted;
    };
    descend_less_or_equal = λ p t. from_pivot p t.items;
    descend_updating = λ p f t. visit_each f (from_pivot p t.items) t;
    get-empty = λ j. refl;
    get-replace_or_insert = λ j x t. find-insert j x t.items;
    get-delete = λ j x t. find-delete j x t.items t.sorted;
    visited_descend = λ p t. from-Descending p t.items t.sorted;
    visited_are_stored = λ p t.
        from-All p t.items (λ x. find by_text x t.items) t.sorted (each_found t.items t.sorted);
    stored_are_visited = λ j p t. find-from j p t.items t.sorted;
  }

-- The tree that the start times stand in.
unfoldable start_tree : BTree before
unfolding before sorted_tree
start_tree = sorted_tree key

-- ===== src/Fsm/Metrics/StartTimes/CountedOnce.antt =====
-- A failure is counted once.
use achilles_sdk.Prelude.{
  All, Bool-cases, List, Option, String, [], ap, arith, false, if◌then◌else◌, inl, inr, is_some,
  less_irrefl, less_total, less_trans, nat_eq, none, refl, some, string_eq, subst, sym, true, ℕ,
  ◌∙◌, ◌∷◌, ◌≡◌,
}
use achilles_sdk.Fsm.Metrics.BTree.{alike, BTree, Descending, find}
use achilles_sdk.Fsm.Metrics.StartTimes.{
  RequestStartTime, key, before, is_other, asked_for, appended_items, appended_times, get_range,
  set_range_failed,
}
use achilles_sdk.Fsm.Metrics.StartTimes.Keys.{IsPlain}
use achilles_sdk.Fsm.Metrics.StartTimes.Ranges.{InReach, is_of, find-appended}
use achilles_sdk.Fsm.Metrics.StartTimes.Laws.{All-map, IsPlainTree, visited-InReach}
use achilles_sdk.Fsm.Metrics.StartTimes.Failures.{
  fail_items, IsSteady, MayFail-IsPlain, mark, AllStored, MayFail, get-fail_items,
  get-set_range_failed, still_stored,
}

-- An item that is found among items below `x` is not above `x`.
module _ (x y : RequestStartTime) where
  -- An item that is found among items below `x` is below `x`, and so not above it.
  found_below :
      (xs : List RequestStartTime)
      → All (λ z. before z x ≡ true) xs
      → is_some (find before y xs) ≡ true
      → (before x y ≡ false) × (before y x ≡ true)
  unfolding before
  found_below [] below found = ground arith
  found_below (z ∷ zs) (first, below) found = ground (
    arith,
    found_below zs below,
    less_total (key z) (key y),
    less_trans (key x) (key y) (key x),
    less_irrefl (key x),
  )

  -- The first of the items among which an item is found is not below it.
  found_at_most :
      (xs : List RequestStartTime)
      → All (λ z. before z x ≡ true) xs
      → is_some (find before y (x ∷ xs)) ≡ true
      → before x y ≡ false
  found_at_most xs below found = ground (arith, found_below xs below)

was_some :
    (old new : Option RequestStartTime) → MayFail old new → is_some new ≡ true → is_some old ≡ true
was_some old new m some_new = ground arith

module _ (b : BTree before) where
  -- A failed item that is not above `k` and not below `y`.
  abbrev FailedFrom : RequestStartTime → RequestStartTime → b.Tree → Type 0
  FailedFrom k y t =
      (x : RequestStartTime) × (b.get x t ≡ some x)
      × (x.failed ≡ true)
      × (before k x ≡ false)
      × (before x y ≡ false)

  mark_found :
      (x : RequestStartTime) (t : b.Tree)
      → b.get (record x { failed = true }) (b.replace_or_insert (record x { failed = true }) t)
        ≡ some (record x { failed = true })
  unfolding before
  mark_found x t = ground (
    arith,
    b.get-replace_or_insert (record x { failed = true }) (record x { failed = true }) t,
    less_irrefl (key (record x { failed = true })),
  )

  marked_stays :
      (k x : RequestStartTime) (xs : List RequestStartTime) (t : b.Tree)
      → Descending before xs
      → AllStored b xs t
      → b.get (record x { failed = true }) t ≡ some (record x { failed = true })
      → b.get (record x { failed = true }) (fail_items b k xs t) ≡ some (record x { failed = true })
  marked_stays k x xs t descending stored found =
      stays (b.get (record x { failed = true }) (fail_items b k xs t))
        (get-fail_items b (record x { failed = true }) k xs t descending stored)
    where
      stays :
          (o : Option RequestStartTime)
          → MayFail (b.get (record x { failed = true }) t) o
          → o ≡ some (record x { failed = true })
      stays o (inl e) = e ∙ found
      stays o (inr (z, e, f)) = f ∙ ap mark (sym e ∙ found)

  fails_first :
      (k y : RequestStartTime) (xs : List RequestStartTime) (t : b.Tree)
      → IsPlain k
      → IsPlain y
      → is_of k y ≡ true
      → Descending before xs
      → InReach k xs
      → AllStored b xs t
      → is_some (find before y xs) ≡ true
      → FailedFrom k y (fail_items b k xs t)
  unfolding fail_items appended_items before key
  fails_first k y [] t plain_k plain_y same descending reach stored found = ground arith
  fails_first k y (x ∷ xs) t plain_k plain_y same (below, descending) ((plain_x, above), reach)
        (here, stored) found =
      elim (Bool-cases (is_other k x)) [
        | inl e ↦ ground (
          arith,
          e,
          find-appended y k (x ∷ xs) plain_k plain_y (below, descending) ((plain_x, above), reach),
        )
        | inr e ↦ elim (Bool-cases x.failed) [
          | inl f ↦ (x, ground (arith, e, f, here), f, above, found_at_most x y xs below found)
          | inr f ↦ (
            record x { failed = true },
            ground (
              arith,
              e,
              f,
              marked_stays k x xs (b.replace_or_insert (record x { failed = true }) t) descending
                  (still_stored b x xs t below stored) (mark_found x t),
            ),
            refl,
            above,
            found_at_most x y xs below found,
          )
        ]
      ]

  emptied :
      (k : RequestStartTime) (ys : List RequestStartTime) (t : b.Tree)
      → Descending before ys
      → All (λ x. (b.get x t ≡ some x) × (before k x ≡ false)) ys
      → ((j : RequestStartTime) → find before j ys ≡ (if before k j then none else b.get j t))
      → ((y : RequestStartTime)
          → b.get y t ≡ some y
          → before k y ≡ false
          → is_of k y ≡ true
          → FailedFrom k y t)
      → appended_times k false ys ≡ []
  unfolding appended_times
  emptied k [] t descending stored visited failing = refl
  emptied k (y ∷ ys) t (below, descending) ((here, above), stored) visited failing =
      elim (Bool-cases (is_of k y)) [
        | inr e ↦ ground (arith, e)
        | inl e ↦ first (failing y here above e)
      ]
    where
      first : FailedFrom k y t → appended_times k false (y ∷ ys) ≡ []
      first (x, found, failed, x_above, x_below) = elim (Bool-cases (alike before y x)) [
        | inl q ↦ ground (arith, visited x, found, x_above, failed, q)
        | inr q ↦ ground (arith, visited x, found, x_above, found_below y x ys below, q, x_below)
      ]

  -- After SetRangeFailed, GetRange for a failure with the same arguments returns nothing.
  pub get_range-set_range_failed :
      IsSteady b
      → (name namespace : String) (generation : ℕ) (t : b.Tree)
      → IsPlain (asked_for name namespace generation)
      → IsPlainTree b t
      → get_range b name namespace generation false (set_range_failed b name namespace generation t)
        ≡ []
  unfolding get_range set_range_failed
  get_range-set_range_failed steady name namespace generation t plain_k plain_t =
      let k = asked_for name namespace generation in
      let t' = set_range_failed b name namespace generation t in
      emptied k (b.descend_less_or_equal k t') t' (b.visited_descend k t')
        (b.visited_are_stored k t') (λ j. b.stored_are_visited j k t')
        (λ y found above same. subst (FailedFrom k y) (sym (steady k t)) (
          fails_first k y (b.descend_less_or_equal k t) t plain_k
            (MayFail-IsPlain (b.get y t) (b.get y t') (plain_t y)
              (get-set_range_failed b steady y name namespace generation t) y found)
            same (b.visited_descend k t) (visited-InReach b k t plain_t)
            (All-map (λ x q. q.0) (b.descend_less_or_equal k t) (b.visited_are_stored k t))
            (ground (
              arith,
              b.stored_are_visited y k t,
              above,
              was_some (b.get y t) (b.get y t')
                  (get-set_range_failed b steady y name namespace generation t),
              found,
            ))))

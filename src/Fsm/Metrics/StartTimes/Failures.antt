-- ===== src/Fsm/Metrics/StartTimes/Failures.antt =====
-- SetRangeFailed marks items as failed, and changes nothing else.
use achilles_sdk.Prelude.{
  All, Bool, Bool-cases, List, Option, String, [], ap, arith, false, if◌then◌else◌, inl, inr,
  less_total, nat_eq, none, refl, some, string_eq, sym, true, ℕ, ◌∙◌, ◌∷◌, ◌≡◌, ◌⊎◌,
}
use achilles_sdk.Fsm.Metrics.BTree.{alike, Descending, BTree}
use achilles_sdk.Fsm.Metrics.StartTimes.{
  RequestStartTime, key, before, is_other, asked_for, fail_item, set_range_failed,
}
use achilles_sdk.Fsm.Metrics.StartTimes.Keys.{IsPlain}
use achilles_sdk.Fsm.Metrics.StartTimes.Laws.{All-map, get-alike}

-- The same item, or the same marked as failed.
abbrev pub MayFail : Option RequestStartTime → Option RequestStartTime → Type 0
MayFail old new =
    (new ≡ old)
    ⊎ ((x : RequestStartTime) × (old ≡ some x) × (new ≡ some (record x { failed = true })))

abbrev pub mark : Option RequestStartTime → Option RequestStartTime
mark none = none
mark (some x) = some (record x { failed = true })

pub MayFail-trans : (o m n : Option RequestStartTime) → MayFail o m → MayFail m n → MayFail o n
MayFail-trans o m n (inl e) (inl f) = inl (f ∙ e)
MayFail-trans o m n (inl e) (inr (x, f, g)) = inr (x, sym e ∙ f, g)
MayFail-trans o m n (inr (x, d, e)) (inl f) = inr (x, d, f ∙ e)
MayFail-trans o m n (inr (x, d, e)) (inr (y, f, g)) = inr (x, d, g ∙ ap mark (sym f ∙ e))

module _ (old new : Option RequestStartTime) where
  -- Marking an item as failed keeps its names and its time.
  pub MayFail-IsPlain :
      ((x : RequestStartTime) → old ≡ some x → IsPlain x)
      → MayFail old new
      → (x : RequestStartTime) → new ≡ some x
      → IsPlain x
  MayFail-IsPlain names (inl same) x e = names x (sym same ∙ e)
  MayFail-IsPlain names (inr (y, f, g)) x e = ground (arith, names y f, g, e)

module _ (b : BTree before) where
  -- The callback of SetRangeFailed on the items in front of an iteration that goes over the items
  -- found at its start.
  unfoldable pub fail_items : RequestStartTime → List RequestStartTime → b.Tree → b.Tree
  fail_items key [] tree = tree
  fail_items key (item ∷ rest) tree =
      let later = fail_items key rest (b.replace_or_insert (record item { failed = true }) tree) in
      if is_other key item then tree else if item.failed then tree else later

  -- The iteration of SetRangeFailed, which replaces items by items with the same key, visits what it
  -- would visit if the tree stayed as it is.
  abbrev pub IsSteady : Type 0
  IsSteady =
      (k : RequestStartTime) (t : b.Tree)
      → b.descend_updating k (fail_item b k) t ≡ fail_items k (b.descend_less_or_equal k t) t

  -- The items are stored.
  abbrev pub AllStored : List RequestStartTime → b.Tree → Type 0
  AllStored xs t = All (λ x. b.get x t ≡ some x) xs

  pub get-failed :
      (j x : RequestStartTime) (t : b.Tree)
      → b.get x t ≡ some x
      → MayFail (b.get j t) (b.get j (b.replace_or_insert (record x { failed = true }) t))
  unfolding before key
  get-failed j x t stored = elim (Bool-cases (alike before x j)) [
    | inl e ↦ inr (
      x,
      ground (arith, e, get-alike b x j t, less_total (key x) (key j), stored),
      ground (arith, e, b.get-replace_or_insert j (record x { failed = true }) t),
    )
    | inr e ↦ inl (ground (arith, e, b.get-replace_or_insert j (record x { failed = true }) t))
  ]

  pub still_stored :
      (x : RequestStartTime) (xs : List RequestStartTime) (t : b.Tree)
      → All (λ y. before y x ≡ true) xs
      → AllStored xs t
      → AllStored xs (b.replace_or_insert (record x { failed = true }) t)
  unfolding before key
  still_stored x [] t below stored = tt
  still_stored x (y ∷ ys) t (first, below) (found, stored) = (
    ground (arith, first, found, b.get-replace_or_insert y (record x { failed = true }) t),
    still_stored x ys t below stored,
  )

  pub get-fail_items :
      (j k : RequestStartTime) (xs : List RequestStartTime) (t : b.Tree)
      → Descending before xs
      → AllStored xs t
      → MayFail (b.get j t) (b.get j (fail_items k xs t))
  unfolding fail_items
  get-fail_items j k [] t descending stored = inl refl
  get-fail_items j k (x ∷ xs) t (below, descending) (found, stored) =
      let first = get-failed j x t found in
      let later =
        get-fail_items j k xs (b.replace_or_insert (record x { failed = true }) t) descending
          (still_stored x xs t below stored) in
      unless_stopped (is_other k x) x.failed (
        MayFail-trans (b.get j t) (b.get j (b.replace_or_insert (record x { failed = true }) t))
          (b.get j (fail_items k xs (b.replace_or_insert (record x { failed = true }) t))) first
          later)
    where
      unless_stopped :
          (other failed : Bool) {u : b.Tree}
          → MayFail (b.get j t) (b.get j u)
          → MayFail (b.get j t) (b.get j (if other then t else if failed then t else u))
      unless_stopped true failed m = inl refl
      unless_stopped false true m = inl refl
      unless_stopped false false m = m

  -- SetRangeFailed marks items as failed, and changes nothing else.
  pub get-set_range_failed :
      IsSteady
      → (j : RequestStartTime) (name namespace : String) (generation : ℕ) (t : b.Tree)
      → MayFail (b.get j t) (b.get j (set_range_failed b name namespace generation t))
  unfolding set_range_failed
  get-set_range_failed steady j name namespace generation t =
      let k = asked_for name namespace generation in
      rw (steady k t) (
        get-fail_items j k (b.descend_less_or_equal k t) t (b.visited_descend k t)
          (All-map (λ x q. q.0) (b.descend_less_or_equal k t) (b.visited_are_stored k t)))

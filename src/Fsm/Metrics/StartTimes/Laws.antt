-- ===== src/Fsm/Metrics/StartTimes/Laws.antt =====
-- What the start times hold after each operation, and what GetRange answers.
use achilles_sdk.Prelude.{
  All, List, Option-cases, String, [], ap, arith, if◌then◌else◌, inl, inr, is_some, less,
  less_irrefl, map, nat_eq, none, not, plain, refl, some, string_eq, true, ℕ, ◌&&◌, ◌∙◌, ◌∷◌, ◌≡◌,
}
use achilles_sdk.Fsm.Metrics.BTree.{alike, find, BTree}
use achilles_sdk.Fsm.Metrics.StartTimes.{
  RequestStartTime, key, before, asked_for, appended_items, get_range, delete_all, delete_range,
  is_earlier, set,
}
use achilles_sdk.Fsm.Metrics.StartTimes.Keys.{IsPlain}
use achilles_sdk.Fsm.Metrics.StartTimes.Ranges.{
  InReach, appended_items-filter, appended_times-map, filter, find-appended, is_of,
}

-- What holds of each member, from what holds of each member.
pub All-map {κ ℓ μ} :
    {X : Type κ} {Q : X → Type ℓ} {R : X → Type μ}
    → ((x : X) → Q x → R x)
    → (xs : List X) → All Q xs
    → All R xs
All-map f [] all = tt
All-map f (x ∷ xs) (q, all) = (f x q, All-map f xs all)

find-alike :
    (i j : RequestStartTime) (xs : List RequestStartTime)
    → key i ≡ key j
    → find before i xs ≡ find before j xs
unfolding before
find-alike i j [] same = refl
find-alike i j (x ∷ xs) same =
    ground (arith, ap (less (key x)) same, ap (λ k. less k (key x)) same, find-alike i j xs same)

module _ (b : BTree before) where
  -- No slash in the names of the stored items.
  abbrev pub IsPlainTree : b.Tree → Type 0
  IsPlainTree t = (j x : RequestStartTime) → b.get j t ≡ some x → IsPlain x

  pub visited-InReach :
      (k : RequestStartTime) (t : b.Tree) → IsPlainTree t → InReach k (b.descend_less_or_equal k t)
  visited-InReach k t plain =
      All-map (λ x q. (plain x x q.0, q.1)) (b.descend_less_or_equal k t) (b.visited_are_stored k t)

  -- GetRange on success, for names without slashes: the start times of all the visited items that
  -- are of the object. Leaving the iteration at the first item of another object loses nothing.
  pub get_range_lem :
      (name namespace : String) (generation : ℕ) (t : b.Tree)
      → IsPlain (asked_for name namespace generation)
      → IsPlainTree t
      → get_range b name namespace generation true t
        ≡ map
            (λ r. r.time)
            (filter
              (is_of (asked_for name namespace generation))
              (b.descend_less_or_equal (asked_for name namespace generation) t))
  unfolding get_range
  get_range_lem name namespace generation t plain plain_t =
      let k = asked_for name namespace generation in
      let xs = b.descend_less_or_equal k t in
      appended_times-map k xs
      ∙ ap (map (λ r. r.time))
          (appended_items-filter k xs plain (b.visited_descend k t) (visited-InReach k t plain_t))

  get-delete_all :
      (j : RequestStartTime) (items : List RequestStartTime) (t : b.Tree)
      → b.get j (delete_all b items t) ≡ (if is_some (find before j items) then none else b.get j t)
  unfolding delete_all
  get-delete_all j [] t = refl
  get-delete_all j (x ∷ xs) t =
      ground (arith, get-delete_all j xs (b.delete x t), b.get-delete j x t)

  pub kept_by_delete_range :
      (j x : RequestStartTime) (name namespace : String) (generation : ℕ) (t : b.Tree)
      → b.get j (delete_range b name namespace generation t) ≡ some x
      → b.get j t ≡ some x
  unfolding delete_range
  kept_by_delete_range j x name namespace generation t e =
      let k = asked_for name namespace generation in
      ground (arith, get-delete_all j (appended_items k (b.descend_less_or_equal k t)) t, e)

  -- DeleteRange removes exactly the items of the object that are not above the one asked for.
  pub get-delete_range :
      (j : RequestStartTime) (name namespace : String) (generation : ℕ) (t : b.Tree)
      → IsPlain j
      → IsPlain (asked_for name namespace generation)
      → IsPlainTree t
      → b.get j (delete_range b name namespace generation t) ≡ (
          if is_of (asked_for name namespace generation) j
            && not (before (asked_for name namespace generation) j)
          then none
          else b.get j t)
  unfolding delete_range
  get-delete_range j name namespace generation t plain_j plain plain_t =
      let k = asked_for name namespace generation in
      let xs = b.descend_less_or_equal k t in
      let after = get-delete_all j (appended_items k xs) t in
      let found =
        find-appended j k xs plain plain_j (b.visited_descend k t) (visited-InReach k t plain_t) in
      let stored = b.stored_are_visited j k t in
      elim (Option-cases (b.get j t)) [
        | inl e ↦ ground (arith, after, found, stored, e)
        | inr (x, e) ↦ ground (arith, after, found, stored, e)
      ]

  -- Set replaces what is stored under the same key, if that is later or there is nothing.
  pub get-set :
      (j : RequestStartTime) (name namespace : String) (generation time : ℕ) (t : b.Tree)
      → b.get j (set b name namespace generation time t) ≡ (
          if alike before (asked_for name namespace generation) j
            && is_earlier b time (b.get (asked_for name namespace generation) t)
          then some (record (asked_for name namespace generation) { time = time })
          else b.get j t)
  unfolding set before key
  get-set j name namespace generation time t = ground (
    arith,
    b.get-replace_or_insert j (record (asked_for name namespace generation) { time = time }) t,
  )

  -- Like items are found alike.
  pub get-alike : (i j : RequestStartTime) (t : b.Tree) → key i ≡ key j → b.get i t ≡ b.get j t
  unfolding before
  get-alike i j t same = ground (
    arith,
    b.stored_are_visited i i t,
    b.stored_are_visited j i t,
    find-alike i j (b.descend_less_or_equal i t) same,
    same,
    less_irrefl (key i),
  )

-- ===== src/Fsm/Transitions/Deletion.antt =====
-- When `DeleteChildrenForeground` of pkg/fsm/types/transitions.go lets the machine go on.
use achilles_sdk.Api.{Env, History, Object, Try, continue, err, ok, pure, wrapping, ◌>>=◌}
use achilles_sdk.Fsm.Transitions.{
  apply_status, Extant, Moved, after_deletions, after_refs, delete_children_foreground, delete_each,
  delete_managed, read_managed_resources,
}
use achilles_sdk.Fsm.Types.Result.{
  done_result, error_result, is_done, requeue_result_with_reason_and_backoff,
}
use achilles_sdk.Prelude.{
  List, Option, [], false, inl, inr, none, refl, string_eq, true, ℕ, ◌∷◌, ◌≡◌, ◌⊎◌,
}

module _ (env : Env) (next : Option ℕ) (parent : Object) where
  -- Done means that `Gone` holds, and not done that there is no next state.
  abbrev pub Settled : Type 0 → Moved → Type 0
  Settled Gone m =
      ((is_done m.result ≡ true) × Gone × (m.next ≡ next) × (m.obj.managed_resources ≡ []))
      ⊎ ((is_done m.result ≡ false) × (m.next ≡ none))

  module _ {Gone : Type 0} where
    after_refs-Settled_some :
        (p child : Object) (children : List Object) (x : Extant) (r : Try (Unit {0}))
        → Settled Gone (after_refs env next p (child ∷ children) x r)
    unfolding after_refs is_done requeue_result_with_reason_and_backoff error_result
    after_refs-Settled_some p child children x (ok u) = inr (refl, refl)
    after_refs-Settled_some p child children x (err e) = inr (refl, refl)

    after_refs-Settled_none :
        (p : Object) (x : Extant) (r : Try (Unit {0}))
        → Gone
        → p.managed_resources ≡ []
        → Settled Gone (after_refs env next p [] x r)
    unfolding after_refs is_done done_result error_result
    after_refs-Settled_none p x (ok u) gone none_left = inl (refl, gone, refl, none_left)
    after_refs-Settled_none p x (err e) gone none_left = inr (refl, refl)

    after_each :
        (child : Object) (children : List Object) (r : Try Extant) (h : History)
        → Settled Gone
            (after_deletions env next parent
              (continue {B = List Object × Extant} r (λ x. pure (child ∷ children, x)) h).0
              (continue {B = List Object × Extant} r (λ x. pure (child ∷ children, x)) h).1).0
    unfolding after_deletions pure is_done error_result
    after_each child children (ok x) h =
        let parent' : Object = record parent { managed_resources = x.refs } in
        after_refs-Settled_some parent' child children x (apply_status env parent' [] h).0
    after_each child children (err e) h = inr (refl, refl)

  settled :
      (r : Try (List Object)) (h h' : History)
      → read_managed_resources env parent.managed_resources h ≡ (r, h')
      → Settled
          ((read_managed_resources env parent.managed_resources h).0 ≡ ok [])
          (delete_children_foreground env next parent h).0
  unfolding delete_children_foreground delete_managed wrapping ◌>>=◌ after_deletions is_done
      error_result delete_each pure
  settled (err e) h h' read = rw read (inr (refl, refl))
  settled (ok []) h h' read =
      let parent' : Object = record parent { managed_resources = [] } in
      rw read (
        after_refs-Settled_none parent' (record { refs = []; ref_strings = [] })
          (apply_status env parent' [] h').0 refl refl)
  settled (ok (child ∷ children)) h h' read = rw read (
      after_each child children
        (delete_each env (child ∷ children) (record { refs = []; ref_strings = [] }) h').0
        (delete_each env (child ∷ children) (record { refs = []; ref_strings = [] }) h').1)

  -- `DeleteChildrenForeground` is done only if the reading of the parent's managed resources
  -- succeeded and found none of them: then the machine goes on with the given next state, and the
  -- parent has no references left. In every other case, errors included, there is no next state.
  pub proceeds_without_children :
      (h : History)
      → let m = (delete_children_foreground env next parent h).0 in
        ((is_done m.result ≡ true)
          × ((read_managed_resources env parent.managed_resources h).0 ≡ ok [])
          × (m.next ≡ next)
          × (m.obj.managed_resources ≡ []))
        ⊎ ((is_done m.result ≡ false) × (m.next ≡ none))
  proceeds_without_children h =
      let (r, h') = read_managed_resources env parent.managed_resources h in settled r h h' refl

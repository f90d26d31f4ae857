-- ===== src/Fsm/ClaimReconciler/Suspended.antt =====
-- A claim that is suspended (pkg/fsm/internal/reconciler_claim.go).
use achilles_sdk.Api.{
  TypedObjectRef, Env, History, Object, ObjectKey, Request, Try, attempt, call, create,
  create_dry_run, delete, delete_foreground, dpanic, err, get, metric, ok, plain, raise, patch,
  patch_status, update, update_status, TypedObjectRef, ◌>>=◌,
}
use achilles_sdk.Api.Effects.{
  Emits, emits_rules, Emits-bind, Emits-if, Emits-pure, Emits-raise, Emits-wrapping,
}
use achilles_sdk.Fsm.ClaimReconciler.{
  delete_claim, add_finalizer, ClaimReconciler, bind_claim, claim_fetched, claim_finalizer,
  claimed_or_empty, ensure_claimed, fetch_claimed, is_claimed_by_other, reconcile_claim,
  with_claimed,
}
use achilles_sdk.Io.Applicator.{ApplyOption, apply, apply_status}
use achilles_sdk.Io.Applicator.Footprint.{Emits-apply, Emits-apply_status}
use achilles_sdk.Meta.{add_finalizer, was_deleted, has_suspend_label}
use achilles_sdk.Meta.Finalizers.{Emits-add_finalizer}
use achilles_sdk.Prelude.{
  All, All-append, List, Option-cases, [], append_assoc, arith, if◌then◌else◌, inl, inr, not,
  string_eq, sym, true, ◌&&◌, ◌++◌, ◌∙◌, ◌∷◌, ◌≡◌,
}

-- Everything but the deletion of an object.
abbrev pub DeletesNothing : Request → Type 0
DeletesNothing (get _ _) = Unit
DeletesNothing (create _) = Unit
DeletesNothing (create_dry_run _) = Unit
DeletesNothing (update _) = Unit
DeletesNothing (patch _) = Unit
DeletesNothing (delete _) = ⊥
DeletesNothing (delete_foreground _) = ⊥
DeletesNothing (update_status _) = Unit
DeletesNothing (patch_status _) = Unit
DeletesNothing (metric _) = Unit
DeletesNothing (dpanic _) = Unit

module _ (env : Env) (r : ClaimReconciler) where
  applies : (o : Object) (opts : List ApplyOption) → Emits DeletesNothing (apply env o opts)
  applies o opts =
      Emits-apply env {P = DeletesNothing} (λ g k. tt) (λ o. tt) (λ o. tt) (λ o. tt) o opts

  applies_status :
      (o : Object) (opts : List ApplyOption) → Emits DeletesNothing (apply_status env o opts)
  applies_status o opts =
      Emits-apply_status env {P = DeletesNothing} (λ g k. tt) (λ o. tt) (λ o. tt) o opts

  adds_finalizer : (o : Object) → Emits DeletesNothing (add_finalizer env o claim_finalizer)
  adds_finalizer o = Emits-add_finalizer env {P = DeletesNothing} o claim_finalizer tt (λ o. tt)

  binds :
      (claim : Object) (ref : TypedObjectRef) → Emits DeletesNothing (bind_claim env r claim ref)
  unfolding bind_claim
  binds claim ref = elim (Option-cases claim.claimed_ref) [
    | inl e ↦ rw e (Emits-wrapping _ _ (applies _ []))
    | inr (bound, e) ↦ rw e (Emits-pure _)
  ]

  ensures : (claim claimed : Object) → Emits DeletesNothing (ensure_claimed env r claim claimed)
  unfolding ensure_claimed
  ensures claim claimed =
      search (emits_rules, applies, applies_status, adds_finalizer, binds) depth 12

  reads :
      (ref : TypedObjectRef) (t : Try Object) → Emits DeletesNothing (claimed_or_empty env r ref t)
  unfolding claimed_or_empty
  reads ref (ok claimed) = Emits-pure claimed
  reads ref (err e) = search emits_rules

  fetches : (claim : Object) → Emits DeletesNothing (fetch_claimed env r claim)
  unfolding fetch_claimed
  fetches claim = elim (Option-cases claim.claimed_ref) [
    | inl e ↦ rw e (search emits_rules)
    | inr (ref, e) ↦ rw e (search (emits_rules, reads))
  ]

  goes_on :
      (claim claimed : Object)
      → has_suspend_label claim ≡ true
      → Emits DeletesNothing (with_claimed env r claim claimed)
  unfolding with_claimed
  goes_on claim claimed suspended =
      Emits-if (is_claimed_by_other claim claimed) (raise (plain "claimed not owned by claim"))
        (if was_deleted claim && not (has_suspend_label claim)
          then delete_claim env r claim claimed
          else ensure_claimed env r claim claimed)
        (λ other. Emits-raise (plain "claimed not owned by claim"))
        λ own.
          Emits-if (was_deleted claim && not (has_suspend_label claim))
            (delete_claim env r claim claimed) (ensure_claimed env r claim claimed)
            (λ gone. absurd (ground arith)) (λ stays. ensures claim claimed)

  -- A suspended claim keeps the claimed object, even if the claim is being deleted: all that
  -- `Reconcile` adds to the history are requests that delete nothing, whatever the server answers.
  pub suspended_claim-DeletesNothing :
      (req : ObjectKey) (claim : Object) (h : History)
      → env.respond h (get r.claim_gvk req) ≡ ok claim
      → has_suspend_label claim ≡ true
      → (added : List Request) × ((reconcile_claim env r req h).1 ≡ added ++ h)
        × All DeletesNothing added
  unfolding reconcile_claim claim_fetched call attempt ◌>>=◌
  suspended_claim-DeletesNothing req claim h found suspended =
      let q = get r.claim_gvk req in
      let rest =
        Emits-bind (fetch_claimed env r claim) (with_claimed env r claim) (fetches claim)
          λ claimed. goes_on claim claimed suspended in
      let (added, e, p) = rest.at (q ∷ h) in
      rw found (
        added ++ q ∷ [],
        e ∙ sym (append_assoc added (q ∷ []) h),
        All-append DeletesNothing added (q ∷ []) p (tt, tt),
      )

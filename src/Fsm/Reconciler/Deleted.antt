-- ===== src/Fsm/Reconciler/Deleted.antt =====
-- The whole reconciliation of an object that is being deleted (pkg/fsm/internal/reconciler.go).
use achilles_sdk.Api.{
  Env, History, Object, ObjectKey, Request, create, create_dry_run, delete, delete_foreground,
  dpanic, get, metric, ok, patch, patch_status, update, update_status,
}
use achilles_sdk.Api.Effects.{then_added}
use achilles_sdk.Fsm.Machine.Runs.Deleting.{
  AllTidy, IsTeardown, IsTidy, Run-TearsDown, TearsDown, nothing_added, one_added,
}
use achilles_sdk.Fsm.Reconciler.{
  Reconciler, deleted_state, deleted_state_name, finalizer_key, finish_finalizer, first_state,
  merge_conditions, reconcile_request,
}
use achilles_sdk.Fsm.Reconciler.Active.{Ends, ends_with, reconcile_request-Run}
use achilles_sdk.Fsm.Reconciler.Suspension.{
  IsObservation, record_metrics-Observes, suspended_is_left_alone,
}
use achilles_sdk.Fsm.Types.Result.{Outcome, Result, is_done}
use achilles_sdk.Io.Applicator.{apply_status}
use achilles_sdk.Io.Applicator.Footprint.{Emits-apply_status}
use achilles_sdk.Meta.Finalizers.{Emits-remove_finalizer}
use achilles_sdk.Meta.{has_suspend_label, was_deleted}
use achilles_sdk.Prelude.{
  All, Bool-cases, List, Option-cases, String, [], arith, contains, inl, inr, is_some, length, refl,
  string_eq, subst, sym, true, ℕ, ◌&&◌, ◌++◌, ◌<◌, ◌∷◌, ◌≡◌,
}

observed_only : (q : Request) → IsObservation q → IsTeardown q
observed_only (get g k) p = tt
observed_only (metric m) p = tt
observed_only (create _) p = absurd p
observed_only (create_dry_run _) p = absurd p
observed_only (update _) p = absurd p
observed_only (patch _) p = absurd p
observed_only (delete _) p = absurd p
observed_only (delete_foreground _) p = absurd p
observed_only (update_status _) p = absurd p
observed_only (patch_status _) p = absurd p
observed_only (dpanic _) p = absurd p

All-observed_only : (qs : List Request) → All IsObservation qs → All IsTeardown qs
All-observed_only [] p = tt
All-observed_only (q ∷ qs) (p, ps) = (observed_only q p, All-observed_only qs ps)

module _ (env : Env) (r : Reconciler) where
  first_state-AllTidy :
      (obj : Object)
      → ((i : ℕ) → IsTidy env r.machine (r.machine.states i))
      → was_deleted obj ≡ true
      → AllTidy env r.machine (first_state env r obj)
  unfolding first_state deleted_state
  first_state-AllTidy obj tidy deleted = elim (Option-cases r.finalizer_state) [
    | inl e ↦ rw (deleted, e) (λ f obj out h has d. absurd (ground arith))
    | inr (i, e) ↦ rw (deleted, e) (tidy i)
  ]

  finish_finalizer-TearsDown :
      (obj : Object) (result : Result) (h : History)
      → TearsDown h (finish_finalizer env r obj result h).1
  unfolding finish_finalizer
  finish_finalizer-TearsDown obj result h =
      elim (Bool-cases (was_deleted obj && is_some r.finalizer_state && is_done result)) [
        | inl e ↦
            rw e ((Emits-remove_finalizer env {P = IsTeardown} obj finalizer_key tt (λ o. tt)).at h)
        | inr e ↦ rw e (nothing_added h)
      ]

  Ends-TearsDown :
      (obj conditions : Object) (result : Result) (h : History) (out : Outcome × History)
      → Ends env r obj conditions result h out
      → TearsDown h out.1
  Ends-TearsDown obj conditions result h out ends =
      let merged = merge_conditions env r obj conditions h in
      let written =
        (Emits-apply_status env {P = IsTeardown} (λ g k. tt) (λ o. tt) (λ o. tt) merged []).at h in
      elim ends [
        | inl (e, _, same) ↦ subst (λ x. TearsDown h x.1) (sym same) written
        | inr (_, same) ↦
            subst (λ x. TearsDown h x.1) (sym same)
              (then_added written
                (finish_finalizer-TearsDown merged result (apply_status env merged [] h).1))
      ]

  ends_with-TearsDown :
      (req : ObjectKey) (h : History) (out : Outcome × History)
      → TearsDown h out.1
      → TearsDown h (ends_with env r req out).1
  ends_with-TearsDown req h (outcome, h') ended =
      let (added, e, p) = record_metrics-Observes env r req outcome h' h' ([], refl, tt) in
      then_added ended (added, e, All-observed_only added p)

  module _ (names : List String) (known : (i : ℕ) → contains names (r.machine.states i).name ≡ true)
      (deleted_name : contains names deleted_state_name ≡ true) (fuel : ℕ)
      (enough : length names < fuel)
      (tidy : (i : ℕ) → IsTidy env r.machine (r.machine.states i)) where
    -- The reconciliation of an object that is being deleted creates no object and updates none as a
    -- whole, whatever the server answers, from the first read to the metrics, for a machine whose
    -- transition functions, when they get an object that is being deleted, leave it so and make no
    -- such requests themselves, and with fuel for every state's name.
    pub deleted_object_creates_nothing :
        (req : ObjectKey) (obj : Object) (h : History)
        → env.respond h (get r.gvk req) ≡ ok obj
        → was_deleted obj ≡ true
        → (added : List Request) × ((reconcile_request env r fuel req h).1 ≡ added ++ h)
          × All IsTeardown added
    deleted_object_creates_nothing req obj h found deleted =
        elim (Bool-cases (has_suspend_label obj)) [
          | inl suspended ↦
              let (_, (added, e, p)) =
                suspended_is_left_alone env r fuel req obj h found suspended in
              (added, e, All-observed_only added p)
          | inr awake ↦
              let (obj', conditions, result, h₁, run, out, ends, e) =
                reconcile_request-Run env r names known deleted_name fuel enough req obj h found
                  awake (ground arith) in
              let ran =
                Run-TearsDown env r.machine tidy run (first_state-AllTidy obj tidy deleted)
                  deleted in
              let read = one_added _ tt (one_added (get r.gvk req) tt (nothing_added h)) in
              let ended =
                then_added (then_added read ran)
                  (Ends-TearsDown obj' conditions result h₁ out ends) in
              subst (λ x. TearsDown h x.1) (sym e) (ends_with-TearsDown req h out ended)
        ]

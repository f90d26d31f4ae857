-- ===== src/Fsm/ClaimReconciler.antt =====
-- pkg/fsm/internal/reconciler_claim.go: a claim and the object that it claims. Every reconciliation
-- that succeeds asks for no requeue, so only its error is kept.
pub mod Bound
pub mod Suspended
pub mod Deleted
use achilles_sdk.GoMap
use achilles_sdk.Api.{
  ConditionStatus, Env, Error, Exec, Gvk, History, Object, ObjectKey, Request, Try, TypedObjectRef,
  attempt, call, create_dry_run, delete_foreground, err, error_text, get, ok, plain, pure, raise,
  ref_key, status_false, status_true, status_unknown, wrap, wrapping, empty_object, ◌>>=◌, ◌>>◌,
}
use achilles_sdk.Io.Applicator.{apply, apply_status}
use achilles_sdk.Io.Options.{as_update}
use achilles_sdk.Meta.{
  Application, add_finalizer, has_suspend_label, must_typed_object_ref, remove_finalizer,
  set_reddit_labels, suspend_key, was_created, was_deleted,
}
use achilles_sdk.Status.{resource_ready}
use achilles_sdk.Prelude.{
  Bool, List, Option, String, [], concat, false, if◌then◌else◌, nat_eq, none, not, some, string_eq,
  true, ◌&&◌, ◌++◌, ◌==◌, ◌∷◌,
}

abbrev pub claim_finalizer : String
claim_finalizer = "cloud.infrared.reddit.com/claim"

-- What the hook of the SDK's user does: it may change the two objects, fail and make requests.
pub record Hooked : Type 0 where
  pub claim : Object
  pub claimed : Object
  pub error : Option Error
  pub requests : List Request

-- BeforeDelete
abbrev pub BeforeDelete : Type 0
BeforeDelete = Object → Object → History → Hooked

-- ClaimReconciler; the two types are type parameters in the source, and the application's data are
-- variables of pkg/meta.
pub record ClaimReconciler : Type 0 where
  pub name : String
  pub claim_gvk : Gvk
  pub claimed_gvk : Gvk
  pub application : Application
  pub before_delete : Option BeforeDelete

-- Go's `==` on the references.
unfoldable pub same_ref : TypedObjectRef → TypedObjectRef → Bool
same_ref a b =
    a.group == b.group
    && a.version == b.version
    && a.kind == b.kind
    && a.name == b.name
    && a.namespace == b.namespace

-- `claimed.GetClaimRef() != nil && *claimed.GetClaimRef() != *claimRef`
unfoldable pub is_claimed_by_other : Object → Object → Bool
unfolding same_ref
is_claimed_by_other claim claimed = elim claimed.claim_ref [
  | none ↦ false
  | some ref ↦ not (same_ref ref (must_typed_object_ref claim))
]

abbrev is_unknown : ConditionStatus → Bool
is_unknown status = status == status_unknown

-- The suspend label of the claim on the claimed object.
unfoldable pub propagate_suspend : Object → Object → Object
propagate_suspend claim claimed =
    if has_suspend_label claim
    then record claimed { labels = GoMap.insert suspend_key "true" claimed.labels }
    else if has_suspend_label claimed
    then record claimed { labels = GoMap.delete suspend_key claimed.labels }
    else claimed

module _ (env : Env) (r : ClaimReconciler) where
  -- The branches on the outcome of `Get` for a claim that is bound.
  claimed_or_empty : TypedObjectRef → Try Object → Exec Object
  claimed_or_empty ref (ok claimed) = pure claimed
  claimed_or_empty ref (err e) =
      if env.is_not_found e
      then pure (record (empty_object r.claimed_gvk) { name = ref.name })
      else raise (wrap "fetching claimed" e)

  -- The claimed object: read, or with a name that a dry run generates.
  unfoldable pub fetch_claimed : Object → Exec Object
  unfolding claimed_or_empty
  fetch_claimed claim = elim claim.claimed_ref [
    | none ↦ wrapping "generating a unique resource name" (
        call env (
          create_dry_run (record (empty_object r.claimed_gvk) {
            generate_name = concat (claim.name ∷ "-" ∷ []);
          })))
    | some ref ↦ do t ← attempt (call env (get r.claimed_gvk (ref_key ref))); claimed_or_empty ref t
  ]

  ignoring_absence : String → Try Object → Exec (Unit {0})
  ignoring_absence text (ok o) = pure tt
  ignoring_absence text (err e) = if env.is_not_found e then pure tt else raise (wrap text e)

  -- The deletion of the claimed object, or of the claim's finalizer once there is no such object.
  unfoldable pub delete_claimed : Object → Object → Exec (Unit {0})
  unfolding ignoring_absence
  delete_claimed claim claimed =
      if was_created claimed
      then (do
        t ← attempt (call env (delete_foreground claimed))
        ignoring_absence "deleting claimed" t)
      else (do
        t ← attempt (remove_finalizer env claim claim_finalizer)
        ignoring_absence "removing finalizer" t)

  -- The hook has failed, or else the deletion goes on.
  unfoldable pub after_hook : Hooked → Exec (Unit {0})
  unfolding delete_claimed
  after_hook x = elim x.error [
    | none ↦ delete_claimed x.claim x.claimed
    | some e ↦ do
      wrapping "updating claim conditions" (
          apply_status env
            (env.set_conditions x.claim (record (env.deleting) { message = error_text e } ∷ [])) [])
      raise (wrap "before delete hook" e)
  ]

  unfoldable pub delete_claim : Object → Object → Exec (Unit {0})
  unfolding after_hook delete_claimed
  delete_claim claim claimed h = elim r.before_delete [
    | none ↦ delete_claimed claim claimed h
    | some hook ↦ (let x = hook claim claimed h in after_hook x (x.requests ++ h))
  ]

  -- The claim refers to the claimed object before that object is created.
  unfoldable pub bind_claim : Object → TypedObjectRef → Exec Object
  bind_claim claim claimed_ref = elim claim.claimed_ref [
    | none ↦
        wrapping "updating client with resource ref"
          (apply env (record claim { claimed_ref = some claimed_ref }) [])
    | some ref ↦ pure claim
  ]

  -- The claimed object as it is to be applied.
  unfoldable pub prepare_claimed : TypedObjectRef → Object → Object → Object
  unfolding propagate_suspend
  prepare_claimed claim_ref claim claimed =
      propagate_suspend claim
        (record (set_reddit_labels r.application claimed r.name) { claim_ref = some claim_ref })

  unfoldable pub claim_conditions : Object → Object → Object
  claim_conditions claim claimed =
      let initialized =
        if is_unknown (env.get_condition claim env.type_ready).status
        then env.set_conditions claim (env.creating ∷ [])
        else claim in
      if resource_ready env claimed
      then env.set_conditions initialized
          (record (env.available) { observed_generation = initialized.generation } ∷ [])
      else initialized

  -- The claim and the claimed object are to be there.
  unfoldable pub ensure_claimed : Object → Object → Exec (Unit {0})
  unfolding bind_claim prepare_claimed claim_conditions
  ensure_claimed claim claimed = do
    kept ← wrapping "adding finalizer" (add_finalizer env claim claim_finalizer)
    bound ← bind_claim kept (must_typed_object_ref claimed)
    applied ←
        wrapping "applying claimed"
          (apply env (prepare_claimed (must_typed_object_ref claim) bound claimed) (as_update ∷ []))
    wrapping "updating claim conditions" (apply_status env (claim_conditions bound applied) [])

  unfoldable pub with_claimed : Object → Object → Exec (Unit {0})
  unfolding is_claimed_by_other delete_claim ensure_claimed
  with_claimed claim claimed =
      if is_claimed_by_other claim claimed
      then raise (plain "claimed not owned by claim")
      else if was_deleted claim && not (has_suspend_label claim)
      then delete_claim claim claimed
      else ensure_claimed claim claimed

  unfoldable pub claim_fetched : Try Object → Exec (Unit {0})
  unfolding fetch_claimed with_claimed
  claim_fetched (ok claim) = fetch_claimed claim >>= λ claimed. with_claimed claim claimed
  claim_fetched (err e) = if env.is_not_found e then pure tt else raise (wrap "fetching claim" e)

  -- The method `Reconcile`.
  unfoldable pub reconcile_claim : ObjectKey → Exec (Unit {0})
  unfolding claim_fetched
  reconcile_claim req = do t ← attempt (call env (get r.claim_gvk req)); claim_fetched t

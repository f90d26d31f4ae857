-- ===== src/Fsm/ClaimReconciler/Deleted.antt =====
-- Reconciliation of a claim that is being deleted (pkg/fsm/internal/reconciler_claim.go).
use achilles_sdk.Api.{
  Env, Error, History, Object, ObjectKey, Request, Try, create, create_dry_run, delete,
  delete_foreground, dpanic, err, get, metric, ok, patch, patch_status, plain, update,
  update_status,
}
use achilles_sdk.Fsm.ClaimReconciler.{ClaimReconciler, claim_finalizer}
use achilles_sdk.Meta.{remove_finalizer, was_created}
use achilles_sdk.Prelude.{Bool, false, none, not, string_eq, true, ◌∷◌, ◌≡◌, ◌⊎◌}
use achilles_sdk.Fsm.ClaimReconciler.Bound.{IsForeign, read_both}

-- What the deletion of a claim may ask for, by whether the claimed object is gone: reads, the patch
-- that removes the finalizer only then, and the deletion of the object only before.
abbrev pub IsJustified : Bool → Request → Type 0
IsJustified gone (get _ _) = Unit
IsJustified gone (create _) = ⊥
IsJustified gone (create_dry_run _) = ⊥
IsJustified gone (update _) = ⊥
IsJustified gone (patch _) = gone ≡ true
IsJustified gone (delete _) = ⊥
IsJustified gone (delete_foreground _) = gone ≡ false
IsJustified gone (update_status _) = ⊥
IsJustified gone (patch_status _) = ⊥
IsJustified gone (metric _) = ⊥
IsJustified gone (dpanic _) = ⊥

module _ (env : Env) where
  -- The server has no such object: not found, or an object that was never created.
  abbrev pub is_gone : Try Object → Bool
  is_gone (ok o) = not (was_created o)
  is_gone (err e) = env.is_not_found e

module _ (env : Env) (r : ClaimReconciler) (req : ObjectKey) (claim : Object) (h : History) where
  -- What the deletion comes to, by the server's answer for the claimed object.
  pub data Finished (t : Try Object) : Try (Unit {0}) × History → Type 0 where
    unknown :
        (e f : Error)
        → t ≡ err e
        → (env.is_not_found e ≡ false) ⊎ (claim.claimed_ref ≡ none)
        → Finished t (err f, (read_both env r req claim h))
    foreign :
        (o : Object)
        → t ≡ ok o
        → IsForeign claim o
        → Finished t (err (plain "claimed not owned by claim"), (read_both env r req claim h))
    deleting :
        (o : Object) (result : Try (Unit {0}))
        → t ≡ ok o
        → was_created o ≡ true
        → Finished t (result, delete_foreground o ∷ (read_both env r req claim h))
    gone :
        (result : Try (Unit {0}))
        → is_gone env t ≡ true
        → Finished t
            (result, (remove_finalizer env claim claim_finalizer (read_both env r req claim h)).1)

-- ===== src/Fsm/Outputs/Deletion.antt =====
-- The outputs of a parent that is being deleted (pkg/fsm/io/outputs.go).
use achilles_sdk.Api.{
  Env, History, Object, Request, create, create_dry_run, delete, delete_foreground, dpanic, get,
  metric, patch, patch_status, update, update_status,
}
use achilles_sdk.Fsm.Outputs.{apply_output_set}
use achilles_sdk.Fsm.Outputs.Footprint.{Emits-apply_output_set_deleted}
use achilles_sdk.Fsm.Types.OutputSet.{OutputSet}
use achilles_sdk.Io.Applicator.{ApplyOption}
use achilles_sdk.Meta.{was_deleted}
use achilles_sdk.Prelude.{All, List, true, ◌++◌, ◌≡◌}

-- Reads, deletions, patches that hold no optimistic lock, and writes of a status.
abbrev pub IsCleanup : Request → Type 0
IsCleanup (get _ _) = Unit
IsCleanup (create _) = ⊥
IsCleanup (create_dry_run _) = ⊥
IsCleanup (update _) = ⊥
IsCleanup (patch o) = o.resource_version ≡ ""
IsCleanup (delete _) = Unit
IsCleanup (delete_foreground _) = ⊥
IsCleanup (update_status _) = Unit
IsCleanup (patch_status _) = Unit
IsCleanup (metric _) = ⊥
IsCleanup (dpanic _) = ⊥

-- Carrying out an output set for a parent that is being deleted creates no object and updates none
-- as a whole: whatever the server answers, all it adds to the history are reads, deletions, patches
-- that carry no resource version, and writes of a status.
pub deleted_parent_creates_nothing :
    (env : Env) (obj : Object) (out : OutputSet ApplyOption) (h : History)
    → was_deleted obj ≡ true
    → (added : List Request) × ((apply_output_set env obj out h).1 ≡ added ++ h)
      × All IsCleanup added
deleted_parent_creates_nothing env obj out h d =
    (Emits-apply_output_set_deleted env {P = IsCleanup} (λ g k. tt) (λ o. tt) (λ o e. e) (λ o. tt)
        (λ o. tt) obj out d).at
      h

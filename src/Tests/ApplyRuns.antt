-- ===== src/Tests/ApplyRuns.antt =====
-- Runs of `Apply` and of the outputs of a parent that is being deleted.
use achilles_sdk.Prelude.{[], arith, eq_iff, nat_eq, refl, string_eq, ◌∷◌, ◌≡◌, ◌≢◌}
use achilles_sdk.Api.{Object, create, status}
use achilles_sdk.Fsm.Types.OutputSet
use achilles_sdk.Fsm.Types.OutputSet.{OutputSet, new_output_set}
use achilles_sdk.Io.Applicator.{ApplyOption, apply, apply_opts, no_request_options}
use achilles_sdk.Io.Applicator.Laws.{Answered, apply_outcomes, get_of}
use achilles_sdk.Io.Applicator.Locks.{locked_create_skips_options}
use achilles_sdk.Io.Options.{as_update, with_controller_ref, with_optimistic_lock}
use achilles_sdk.Tests.World.{db, empty_server, web, web_ref}

web_is_named : web.name ≢ ""
web_is_named p = ground (arith, p, eq_iff "web" "")

apply_outcomes_example :
    let (o', ro, e) = apply_opts web no_request_options (as_update ∷ []) in
    Answered empty_server
      (empty_server.respond [] (get_of web))
      o'
      ro
      e
      (get_of web ∷ [])
      (apply empty_server web (as_update ∷ []) [])
apply_outcomes_example = apply_outcomes empty_server web (as_update ∷ []) [] web_is_named

locked_create_skips_options_example :
    (apply empty_server web (with_optimistic_lock ∷ with_controller_ref empty_server db ∷ []) []).1
    ≡ create web ∷ get_of web ∷ []
locked_create_skips_options_example =
    locked_create_skips_options empty_server web (with_controller_ref empty_server db ∷ [])
      (status "NotFound") [] web_is_named refl refl refl

abbrev outputs : OutputSet ApplyOption
outputs =
    OutputSet.delete empty_server
      (OutputSet.apply empty_server (new_output_set empty_server) web (as_update ∷ [])) db

abbrev db_parent : Object
db_parent = record db { managed_resources = web_ref ∷ [] }

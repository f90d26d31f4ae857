-- ===== src/Tests/OutputRuns.antt =====
-- Runs of the output set, the results and the conditions.
use achilles_sdk.Prelude.{
  All, List, [], if◌then◌else◌, nat_eq, none, some, string_eq, ℕ, ◌==◌, ◌↔◌, ◌∷◌, ◌≡◌, ◌≢◌, ◌⊎◌,
}
use achilles_sdk.GoMap
use achilles_sdk.Api.{Condition, status_false, status_true}
use achilles_sdk.Fsm.Types.OutputSet
use achilles_sdk.Fsm.Types.OutputSet.{OutputSet, new_output_set, options_of}
use achilles_sdk.Fsm.Types.OutputSet.Laws
use achilles_sdk.Fsm.Types.OutputSet.Laws.{
  Call, apply_all_keeps_options, apply_call, delete_by_ref_call, delete_call, last_call_wins,
  options_of-apply, run, run-IsValid,
}
use achilles_sdk.Sets.ObjectSet.{key_of}
use achilles_sdk.Sets.ObjectSet.Laws.{at_key}
use achilles_sdk.Status.{new_ready_condition, ready_message, reason_success}
use achilles_sdk.Status.Laws.{failed, new_ready_condition_lem}
use achilles_sdk.Tests.World.{db, empty_server, other_web, web, web_ref, work_condition}

-- An apply option is a number here.
abbrev calls : List (Call ℕ)
calls =
    apply_call web (1 ∷ []) ∷ delete_call db ∷ apply_call db [] ∷ delete_by_ref_call web_ref ∷ []

run-IsValid_example :
    Laws.IsValid empty_server (run empty_server (new_output_set empty_server) calls)
run-IsValid_example = run-IsValid empty_server calls

abbrev applied_web : OutputSet ℕ
applied_web = OutputSet.apply empty_server (new_output_set empty_server) web (1 ∷ [])

last_call_wins_example :
    (at_key (OutputSet.delete empty_server applied_web other_web).applied "k"
      ≡ (if key_of empty_server other_web == "k" then none else at_key applied_web.applied "k"))
    × (at_key (OutputSet.delete empty_server applied_web other_web).deleted "k" ≡ (
        if key_of empty_server other_web == "k"
        then some other_web
        else at_key applied_web.deleted "k"))
    × (GoMap.lookup "k" (OutputSet.delete empty_server applied_web other_web).apply_opts ≡ (
        if key_of empty_server other_web == "k"
        then none
        else GoMap.lookup "k" applied_web.apply_opts))
    × (at_key (OutputSet.apply empty_server applied_web other_web (2 ∷ [])).applied "k" ≡ (
        if key_of empty_server other_web == "k"
        then some other_web
        else at_key applied_web.applied "k"))
    × (GoMap.lookup "k" (OutputSet.apply empty_server applied_web other_web (2 ∷ [])).apply_opts ≡ (
        if key_of empty_server other_web == "k"
        then some (2 ∷ [])
        else GoMap.lookup "k" applied_web.apply_opts))
    × (at_key (OutputSet.apply empty_server applied_web other_web (2 ∷ [])).deleted "k"
        ≡ at_key applied_web.deleted "k")
last_call_wins_example = last_call_wins empty_server applied_web other_web (2 ∷ []) "k"

web_has_options : options_of empty_server applied_web web ≢ []
web_has_options =
    subst_options (options_of-apply empty_server (new_output_set empty_server) web (1 ∷ []))
  where
    subst_options : {l : List ℕ} → l ≡ 1 ∷ [] → l ≢ []
    subst_options e = rw e (λ p. cc)

apply_all_keeps_options_example :
    (options_of empty_server (OutputSet.apply_all empty_server applied_web (web ∷ [])) web
      ≡ options_of empty_server applied_web web)
    × (options_of empty_server (OutputSet.apply empty_server applied_web web []) web ≡ [])
    × (OutputSet.apply_all empty_server applied_web (web ∷ [])
        ≢ OutputSet.apply empty_server applied_web web [])
apply_all_keeps_options_example =
    apply_all_keeps_options empty_server applied_web web web_has_options

abbrev conditions : List Condition
conditions = record work_condition { status = status_true } ∷ work_condition ∷ []

new_ready_condition_example :
    let r = new_ready_condition empty_server 9 4 conditions in
    ((r.status ≡ status_true) ↔ All (λ c. c.status ≡ status_true) conditions)
    × ((r.status ≡ status_true) ⊎ (r.status ≡ status_false))
    × ((r.reason ≡ reason_success) ↔ (r.status ≡ status_true))
    × (r.message ≡ ready_message (failed conditions))
    × (r.observed_generation ≡ 4)
new_ready_condition_example = new_ready_condition_lem empty_server 9 4 conditions

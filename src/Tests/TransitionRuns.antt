-- ===== src/Tests/TransitionRuns.antt =====
-- Runs of the transition functions that the SDK provides.
use achilles_sdk.Prelude.{
  Bool, List, [], false, length, nat_eq, none, some, string_eq, true, ◌∷◌, ◌≡◌, ◌≤◌, ◌⊎◌,
}
use achilles_sdk.Api.{Env, Gvk, Object, ok}
use achilles_sdk.Fsm.Transitions.{
  ReadyOption, applicable, delete_children_foreground, read_managed_resources, ready_opts,
  transition_when_ready, unready_fn, with_resources, unready_names,
}
use achilles_sdk.Fsm.Transitions.Deletion.{proceeds_without_children}
use achilles_sdk.Fsm.Transitions.Readiness.{proceeds_when_ready, first_three}
use achilles_sdk.Fsm.Types.Result.{is_done}
use achilles_sdk.Meta.{must_typed_object_ref}
use achilles_sdk.Tests.World.{db, server_with, web, web_ref}

abbrev parent : Object
parent = record db { managed_resources = web_ref ∷ [] }

abbrev server : Env
server = server_with web

proceeds_without_children_example :
    let m = (delete_children_foreground server (some 1) parent []).0 in
    ((is_done m.result ≡ true)
      × ((read_managed_resources server parent.managed_resources []).0 ≡ ok [])
      × (m.next ≡ some 1)
      × (m.obj.managed_resources ≡ []))
    ⊎ ((is_done m.result ≡ false) × (m.next ≡ none))
proceeds_without_children_example = proceeds_without_children server (some 1) parent []

abbrev none_conditioned : Gvk → Bool
none_conditioned g = false

abbrev options : List ReadyOption
options = with_resources (web ∷ []) ∷ []

proceeds_when_ready_example :
    let opts = ready_opts options in
    let m = (transition_when_ready server none_conditioned options (some 1) parent []).0 in
    (((is_done m.result ≡ true)
        × ((us : List Object) × ((unready_fn server none_conditioned opts parent []).0 ≡ ok us)
            × (applicable server opts.resources us ≡ [])
            × (m.next ≡ some 1)))
      ⊎ ((is_done m.result ≡ false) × (m.next ≡ none)))
    × (m.obj ≡ parent)
proceeds_when_ready_example = proceeds_when_ready server none_conditioned options (some 1) parent []

first_three_example :
    (unready_names server (web ∷ db ∷ web ∷ db ∷ []) [] ≡ "web" ∷ "db" ∷ "web" ∷ [])
    × (length (unready_names server (web ∷ db ∷ web ∷ db ∷ []) []) ≤ 3)
unfolding must_typed_object_ref
first_three_example = first_three server (web ∷ db ∷ web ∷ db ∷ [])

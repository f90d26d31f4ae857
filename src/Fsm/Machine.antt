-- ===== src/Fsm/Machine.antt =====
-- The states of a controller (pkg/fsm/types/core.go) and the loop of `reconcile` over them
-- (pkg/fsm/internal/reconciler.go).
pub mod Termination
pub mod Runs
use achilles_sdk.GoMap.{GoMap}
use achilles_sdk.Api.{
  error_text, Condition, Env, Exec, Gvk, History, Object, Request, Try, dpanic, emit, err, metric,
  ok, pure, re_entered_state, record_state_duration, same_gvk, status_false, status_true, wrap,
  ◌>>◌,
}
use achilles_sdk.Fsm.Outputs.{apply_output_set}
use achilles_sdk.Fsm.Types.OutputSet.{OutputSet, list_applied, new_output_set}
use achilles_sdk.Fsm.Types.Result.{
  Result, done_result, error_result, get_message_and_reason, has_requeue, is_done, wrap_error,
  zero_result,
}
use achilles_sdk.Io.Applicator.{ApplyOption}
use achilles_sdk.Meta.{Application, set_reddit_labels}
use achilles_sdk.Prelude.{
  Bool, List, Option, String, [], concat, contains, false, if◌then◌else◌, is_some, nat_eq, none,
  not, some, string_eq, suc, true, zero, ℕ, ◌&&◌, ◌++◌, ◌==◌, ◌∷◌,
}

-- What a transition function, which is the SDK user's code, does: it may change the object and the
-- output set and make requests, and it returns the next state, if any, and a result. A `*State` is
-- a number under which the machine has the state.
pub record Transitioned : Type 0 where
  pub obj : Object
  pub out : OutputSet ApplyOption
  pub next : Option ℕ
  pub result : Result
  pub requests : List Request

-- types.TransitionFunc
abbrev pub TransitionFunc : Type 0
TransitionFunc = Object → OutputSet ApplyOption → History → Transitioned

pub record State : Type 0 where
  pub name : String
  pub transition : Option TransitionFunc
  pub condition : Condition

-- The fields of fsmReconciler that the loop reads, and the states behind the pointers.
pub record Machine : Type 0 where
  pub states : ℕ → State
  pub name : String
  pub managed_types : List Gvk
  pub application : Application

-- The loop's variables. `conditions` is the empty object that gathers the conditions.
pub record Loop : Type 0 where
  pub obj : Object
  pub conditions : Object
  pub seen_states : List String
  pub requeue_after_completion : Result

-- One round of the loop: it returns from `reconcile`, or goes on with the next state.
pub data Turn : Type 0 where
  stop : Object → Object → Result → Turn
  go : Option ℕ → Loop → Turn

is_managed : List Gvk → Gvk → Bool
is_managed [] gvk = false
is_managed (t ∷ types) gvk = if same_gvk t gvk then true else is_managed types gvk

label_entries : Application → String → GoMap String Object → GoMap String Object
label_entries app name [] = []
label_entries app name ((k, o) ∷ m) = (k, set_reddit_labels app o name) ∷ label_entries app name m

-- The development panic for each output whose type is not among the managed types.
unfoldable pub report_unmanaged : List Gvk → List Object → Exec (Unit {0})
unfolding is_managed
report_unmanaged types [] = pure tt
report_unmanaged types (o ∷ objects) = do
  if is_managed types o.gvk then pure tt else emit (dpanic o.gvk)
  report_unmanaged types objects

-- types.Result{} by Go's `==` on its fields.
unfoldable pub is_zero_result : Result → Bool
is_zero_result r =
    not r.done
    && not (is_some r.error)
    && r.reason == ""
    && r.requeue_msg == ""
    && r.requeue_after == 0
    && not r.requeue_after_completion
    && r.requeue_after_completion_state == ""
    && not (is_some r.custom_status_condition)

module _ (env : Env) (machine : Machine) where
  -- The method `applyOutputs`. Labelling changes the objects of the output set.
  unfoldable pub apply_outputs : Object → OutputSet ApplyOption → Exec Object
  unfolding report_unmanaged label_entries
  apply_outputs obj out = do
    report_unmanaged machine.managed_types (list_applied out)
    apply_output_set env obj (record out {
      applied = record { set = label_entries machine.application machine.name out.applied.set };
    })

  -- `if !condition.IsEmpty() { conditions.SetConditions(condition) }`
  unfoldable pub add_condition : Object → Condition → Object
  add_condition conditions c =
      if env.condition_is_empty c then conditions else env.set_conditions conditions (c ∷ [])

  -- The condition with status false and the result's message and reason.
  unfoldable pub falsify : Condition → Result → Condition
  falsify c result =
      let (message, reason) = get_message_and_reason result in
      record c { status = status_false; message = message; reason = reason }

  -- The condition of a state that is done: the default, overridden by the result's own condition.
  unfoldable pub customize : Condition → Result → Condition
  customize c result = elim result.custom_status_condition [
    | none ↦ c
    | some custom ↦ record c {
      status = custom.status;
      reason = custom.reason;
      message = custom.message;
    }
  ]

  -- The rest of a round after the outputs have been applied, or could not be.
  unfoldable pub after_outputs : Loop → Option ℕ → Condition → Result → Try Object → Turn
  unfolding add_condition
  after_outputs l next condition result (err e) =
      stop l.obj
        (add_condition l.conditions (record condition {
          status = status_false;
          reason = "ApplyOutputsFailed";
          message = concat ("Failed to apply outputs: " ∷ error_text e ∷ []);
        }))
        (error_result (wrap "applying outputs" e))
  after_outputs l next condition result (ok obj) =
      let conditions = add_condition l.conditions condition in
      if has_requeue result && not result.requeue_after_completion
      then stop obj conditions result
      else go next (record l { obj = obj; conditions = conditions })

  -- A round from the call of `applyOutputs` on.
  unfoldable pub finish_turn :
      Loop → OutputSet ApplyOption → Option ℕ → Condition → Result → History → Turn × History
  unfolding after_outputs apply_outputs
  finish_turn l out next condition result h =
      let (r, h') = apply_outputs l.obj out h in (after_outputs l next condition result r, h')

  -- `result.RequeueAfterCompletionState = currentState.Name`, for a late requeue.
  unfoldable pub marked_result : State → Result → Result
  marked_result s result =
      if result.requeue_after_completion
      then record result { requeue_after_completion_state = s.name }
      else result

  -- A late requeue falsifies the state's condition, whether or not the state is done.
  unfoldable pub marked_condition : State → Condition → Result → Condition
  unfolding falsify marked_result
  marked_condition s c result =
      if result.requeue_after_completion then falsify c (marked_result s result) else c

  -- The last late requeue is kept.
  unfoldable pub marked_loop : State → Loop → Transitioned → Loop
  unfolding marked_result
  marked_loop s l t = record l {
    obj = t.obj;
    requeue_after_completion =
        if t.result.requeue_after_completion
        then marked_result s t.result
        else l.requeue_after_completion;
  }

  -- The return from a state that is not done.
  unfoldable pub stop_unfinished : Loop → Condition → Result → Turn
  unfolding falsify
  stop_unfinished l c result =
      stop l.obj
        (if env.condition_is_empty c
          then l.conditions
          else env.set_conditions l.conditions (falsify c result ∷ []))
        (wrap_error result "transitioning state")

  -- A round after the transition function has returned, `condition` with the status true.
  unfoldable pub after_transition :
      State → Loop → Condition → Transitioned → History → Turn × History
  unfolding stop_unfinished
  after_transition s l condition t h =
      let result = marked_result s t.result in
      let c = marked_condition s condition t.result in
      if not (is_done result)
      then (stop_unfinished (marked_loop s l t) c result, h)
      else finish_turn (marked_loop s l t) t.out t.next (customize c result) result h

  -- The call of the transition function of a state that has one.
  unfoldable pub run_transition :
      State → Loop → Condition → TransitionFunc → History → Turn × History
  run_transition s l condition transition h =
      let t = transition l.obj (new_output_set env) h in
      let h' = metric (record_state_duration t.obj.gvk s.name) ∷ t.requests ++ h in
      after_transition s l
        (record condition { last_transition_time = env.now h'; status = status_true }) t h'

  -- The body of the loop, for a state that is no nil pointer.
  unfoldable pub enter_state : State → Loop → History → Turn × History
  enter_state s l h =
      if contains l.seen_states s.name
      then (stop l.obj l.conditions (error_result (re_entered_state s.name)), h)
      else (let l' = record l { seen_states = s.name ∷ l.seen_states } in
          let condition = record (s.condition) { observed_generation = l.obj.generation } in
          elim s.transition [
            | none ↦ finish_turn l' (new_output_set env) none condition zero_result h
            | some transition ↦ run_transition s l' condition transition h
          ])

  -- `reconcile` after the loop.
  unfoldable pub after_loop : Loop → Object × Object × Result
  unfolding is_zero_result
  after_loop l = (
    l.obj,
    l.conditions,
    if not (is_zero_result l.requeue_after_completion)
        then l.requeue_after_completion
        else done_result,
  )

  abbrev pub state_at : Option ℕ → Option State
  state_at none = none
  state_at (some i) = some (machine.states i)

  -- The end of a round: return, or go round again.
  abbrev pub after_turn :
      (Option State → Loop → History → Option (Object × Object × Result) × History)
      → Turn
      → History
      → Option (Object × Object × Result) × History
  after_turn again (stop obj conditions result) h = (some (obj, conditions, result), h)
  after_turn again (go next l) h = again (state_at next) l h

  -- `for currentState != nil { … }`, with fuel; `none` means that the fuel ran out.
  unfoldable pub run_states :
      ℕ → Option State → Loop → History → Option (Object × Object × Result) × History
  unfolding after_loop enter_state
  run_states fuel none l h = (some (after_loop l), h)
  run_states zero (some s) l h = (none, h)
  run_states (suc fuel) (some s) l h =
      let (turn, h') = enter_state s l h in after_turn (run_states fuel) turn h'

-- ===== src/Fsm/Machine/Runs.antt =====
-- How a machine may run (pkg/fsm/internal/reconciler.go, the loop of `reconcile`), as a relation:
-- no fuel, no `Turn`, and one rule for each way in which a visit of a state can end.
pub mod Rounds
pub mod Exact
pub mod Sound
pub mod Deleting
use achilles_sdk.Api.{
  Condition, Env, Error, History, Object, error_text, err, metric, ok, record_state_duration,
  status_false, status_true, wrap,
}
use achilles_sdk.Fsm.Machine.{
  Loop, Machine, State, TransitionFunc, Transitioned, add_condition, after_loop, apply_outputs,
  customize, falsify, marked_condition, marked_result, state_at,
}
use achilles_sdk.Fsm.Types.OutputSet.{new_output_set}
use achilles_sdk.Fsm.Types.Result.{
  Result, error_result, has_requeue, is_done, wrap_error, zero_result,
}
use achilles_sdk.Prelude.{
  Bool, Option, [], concat, contains, false, if◌then◌else◌, none, not, some, string_eq, true, ◌&&◌,
  ◌++◌, ◌∷◌, ◌≡◌,
}

-- A result that asks for a requeue before the machine is through.
abbrev pub is_early : Result → Bool
is_early r = has_requeue r && not r.requeue_after_completion

-- The condition of a state whose outputs could not be applied.
abbrev pub failed_condition : Condition → Error → Condition
failed_condition c e = record c {
  status = status_false;
  reason = "ApplyOutputsFailed";
  message = concat ("Failed to apply outputs: " ∷ error_text e ∷ []);
}

module _ (env : Env) (machine : Machine) where
  -- What a transition function does in a state, and the history when it has returned.
  abbrev pub step : TransitionFunc → Loop → History → Transitioned
  step f l h = f l.obj (new_output_set env) h

  abbrev pub stepped : State → Transitioned → History → History
  stepped s t h = metric (record_state_duration t.obj.gvk s.name) ∷ t.requests ++ h

  -- A state without a transition function leaves the object alone and is followed by none.
  abbrev pub idle : Object → Transitioned
  idle obj = record {
    obj = obj;
    out = new_output_set env;
    next = none;
    result = zero_result;
    requests = [];
  }

  -- The state's condition as it is before and after the transition function runs.
  abbrev pub own_condition : State → Loop → Condition
  own_condition s l = record (s.condition) { observed_generation = l.obj.generation }

  abbrev pub true_condition : State → Loop → History → Condition
  true_condition s l h = record (own_condition s l) {
    last_transition_time = env.now h;
    status = status_true;
  }

  -- The transition function did its work, with this condition and history, or there is none.
  pub data Done (s : State) (l : Loop) (h : History)
      : Transitioned → Condition → History → Type 0 where
    idled :
        {t : Transitioned} {c : Condition} {h₁ : History}
        → s.transition ≡ none
        → t ≡ idle l.obj
        → c ≡ own_condition s l
        → h₁ ≡ h
        → Done s l h t c h₁
    worked :
        {t : Transitioned} {c : Condition} {h₁ : History} (f : TransitionFunc)
        → s.transition ≡ some f
        → is_done (step f l h).result ≡ true
        → t ≡ step f l h
        → c
          ≡ customize env machine
              (marked_condition env machine s
                (true_condition s l (stepped s (step f l h) h))
                (step f l h).result)
              (marked_result env machine s (step f l h).result)
        → h₁ ≡ stepped s (step f l h) h
        → Done s l h t c h₁

  -- `Run o l h out h'`: in state `o`, with the variables `l` and after the history `h`, the machine
  -- returns the object, the conditions and the result `out` and leaves the history `h'`.
  pub data Run : Option State → Loop → History → Object × Object × Result → History → Type 0 where
    ended : {l : Loop} {h : History} → Run none l h (after_loop env machine l) h
    re_entered :
        {s : State} {l : Loop} {h : History}
        → contains l.seen_states s.name ≡ true
        → Run (some s) l h (l.obj, l.conditions, error_result (Error.re_entered_state s.name)) h
    unfinished :
        {s : State} {l : Loop} {h : History} (f : TransitionFunc)
        → contains l.seen_states s.name ≡ false
        → s.transition ≡ some f
        → is_done (step f l h).result ≡ false
        → (c : Condition)
        → c
          ≡ marked_condition env machine s
              (true_condition s l (stepped s (step f l h) h))
              (step f l h).result
        → Run
            (some s)
            l
            h
            (
              (step f l h).obj,
              if env.condition_is_empty c
                  then l.conditions
                  else env.set_conditions l.conditions (
                      falsify env machine c (marked_result env machine s (step f l h).result) ∷ []),
              wrap_error (marked_result env machine s (step f l h).result) "transitioning state",
            )
            (stepped s (step f l h) h)
    failed :
        {s : State} {l : Loop} {h h₁ h₂ : History} {t : Transitioned} {c : Condition} {e : Error}
        → contains l.seen_states s.name ≡ false
        → Done s l h t c h₁
        → apply_outputs env machine t.obj t.out h₁ ≡ (err e, h₂)
        → Run
            (some s)
            l
            h
            (
              t.obj,
              add_condition env machine l.conditions (failed_condition c e),
              error_result (wrap "applying outputs" e),
            )
            h₂
    requeued :
        {s : State} {l : Loop} {h h₁ h₂ : History} {t : Transitioned} {c : Condition} {obj : Object}
        → contains l.seen_states s.name ≡ false
        → Done s l h t c h₁
        → apply_outputs env machine t.obj t.out h₁ ≡ (ok obj, h₂)
        → is_early t.result ≡ true
        → Run (some s) l h (obj, add_condition env machine l.conditions c, t.result) h₂
    proceeds :
        {s : State} {l : Loop} {h h₁ h₂ h₃ : History} {t : Transitioned} {c : Condition}
        {obj : Object} {out : Object × Object × Result}
        → contains l.seen_states s.name ≡ false
        → Done s l h t c h₁
        → apply_outputs env machine t.obj t.out h₁ ≡ (ok obj, h₂)
        → is_early t.result ≡ false
        → Run
            (state_at env machine t.next)
            (record {
              obj = obj;
              conditions = add_condition env machine l.conditions c;
              seen_states = s.name ∷ l.seen_states;
              requeue_after_completion =
                  if t.result.requeue_after_completion
                  then marked_result env machine s t.result
                  else l.requeue_after_completion;
            })
            h₂
            out
            h₃
        → Run (some s) l h out h₃

-- ===== src/Fsm/Machine/Runs/Sound.antt =====
-- The loop over the states runs as the relation says (pkg/fsm/internal/reconciler.go).
use achilles_sdk.Api.{Env, History, Object}
use achilles_sdk.Fsm.Machine.{after_turn, run_states, enter_state, Loop, Machine, State, Turn}
use achilles_sdk.Fsm.Machine.Termination.{IsNamed, run_states_total, unseen}
use achilles_sdk.Fsm.Machine.Runs.Exact.{one_run}
use achilles_sdk.Fsm.Machine.Runs.Rounds.{Round, enter_state-Round, going, stopped}
use achilles_sdk.Fsm.Machine.Runs.{Run}
use achilles_sdk.Fsm.Types.Result.{Result}
use achilles_sdk.Prelude.{
  List, Option, String, ap, contains, is_some, none, refl, some, string_eq, subst, suc, true, zero,
  ℕ, ◌<◌, ◌≡◌,
}

module _ (env : Env) (machine : Machine) where
  same_return :
      {o : Option State} {l : Loop} {h h₁ h₂ : History} (out out' : Object × Object × Result)
      → ◌≡◌ {A = Option (Object × Object × Result) × History} (some out, h₁) (some out', h₂)
      → Run env machine o l h out h₁
      → Run env machine o l h out' h₂
  same_return {o} {l} {h} {h₁} {h₂} out out' e run =
      subst (λ x. Run env machine o l h x h₂) (some_injective (ap (λ x. x.0) e))
        (subst (λ x. Run env machine o l h out x) (ap (λ x. x.1) e) run)
    where
      some_injective :
          ◌≡◌ {A = Option (Object × Object × Result)} (some out) (some out') → out ≡ out'
      some_injective p = cc

  -- A result of the loop, if the fuel lasted, is that of a run.
  after_turn-Run :
      {s : State} {l : Loop} {h : History} {turn : Turn} {h₁ : History} (fuel : ℕ)
      (out : Object × Object × Result) (h' : History)
      → Round env machine s l h turn h₁
      → ((o : Option State) (l' : Loop)
          → run_states env machine fuel o l' h₁ ≡ (some out, h')
          → Run env machine o l' h₁ out h')
      → after_turn env machine (run_states env machine fuel) turn h₁ ≡ (some out, h')
      → Run env machine (some s) l h out h'
  after_turn-Run fuel out h' (stopped run) again e = same_return _ out e run
  after_turn-Run fuel out h' (going on) again e = on out h' (again _ _ e)

  run_states_sound :
      (fuel : ℕ) (o : Option State) (l : Loop) (h : History) (out : Object × Object × Result)
      (h' : History)
      → run_states env machine fuel o l h ≡ (some out, h')
      → Run env machine o l h out h'
  unfolding run_states
  run_states_sound zero none l h out h' e = same_return _ out e Run.ended
  run_states_sound (suc fuel) none l h out h' e = same_return _ out e Run.ended
  run_states_sound zero (some s) l h out h' e = cc
  run_states_sound (suc fuel) (some s) l h out h' e =
      after_turn-Run fuel out h' (enter_state-Round env machine s l h)
        (λ o l'. run_states_sound fuel o l' (enter_state env machine s l h).1 out h') e

  -- The loop implements the relation: if every state of the machine, and the one to begin with, has
  -- its name in a list, then fuel beyond the number of names that have not been seen lets the loop
  -- return, and what it returns and does is a run, and the only one. So a state is followed by the
  -- next one exactly if it was not visited before, its result was done, its outputs could be applied
  -- and it did not ask for an early requeue; a run ends where there is no next state, and otherwise
  -- in a state that fails one of these, with that state's result or the error.
  pub run_states-Run :
      (fuel : ℕ) (names : List String) (o : Option State) (l : Loop) (h : History)
      → ((i : ℕ) → contains names (machine.states i).name ≡ true)
      → IsNamed env machine names o
      → unseen names l.seen_states < fuel
      → (out : Object × Object × Result) × (h' : History) × (run_states env machine fuel o l h
          ≡ (some out, h'))
        × Run env machine o l h out h'
        × ((out' : Object × Object × Result) (h'' : History)
            → Run env machine o l h out' h''
            → (out ≡ out') × (h' ≡ h''))
  run_states-Run fuel names o l h known named enough =
      let (out, h', e) =
        returned (run_states env machine fuel o l h)
          (run_states_total env machine fuel names o l h known named enough) in
      let run = run_states_sound fuel o l h out h' e in
      (out, h', e, run, λ out' h'' other. one_run env machine o l h out out' h' h'' run other)
    where
      returned :
          (x : Option (Object × Object × Result) × History)
          → is_some x.0 ≡ true
          → (out : Object × Object × Result) × (h' : History) × (x ≡ (some out, h'))
      returned (some out, h') r = (out, h', refl)
      returned (none, h') r = cc

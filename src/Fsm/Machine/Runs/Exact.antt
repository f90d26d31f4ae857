-- ===== src/Fsm/Machine/Runs/Exact.antt =====
-- Every run of the relation is what the loop over the states does, so that there is one run only
-- (pkg/fsm/internal/reconciler.go).
use achilles_sdk.Api.{Condition, Env, History, Object, Try, err, ok}
use achilles_sdk.Fsm.Machine.{
  customize, Loop, Machine, State, TransitionFunc, Transitioned, Turn, after_outputs,
  after_transition, after_turn, apply_outputs, enter_state, finish_turn, go, marked_condition,
  marked_loop, marked_result, run_states, run_transition, state_at, stop, stop_unfinished,
}
use achilles_sdk.Fsm.Machine.Runs.{
  Done, Run, idle, idled, own_condition, step, stepped, true_condition, worked,
}
use achilles_sdk.Fsm.Machine.Termination.{enter_seen}
use achilles_sdk.Fsm.Machine.Runs.Rounds.{
  early_turn, entered, late_turn, marked-done, onward, turn_after,
}
use achilles_sdk.Fsm.Types.Result.{Result, is_done}
use achilles_sdk.Prelude.{
  Option, ap, arith, contains, false, none, refl, some, string_eq, subst, suc, sym, true, zero, ℕ,
  ◌+◌, ◌∙◌, ◌≡◌,
}

module _ (env : Env) (machine : Machine) where
  abbrev outputs_turn : State → Loop → Transitioned → Condition → History → Turn × History
  outputs_turn s l t c h₁ =
      finish_turn env machine (marked_loop env machine s (entered env machine s l) t) t.out t.next c
        (marked_result env machine s t.result) h₁

  module _ (s : State) (l : Loop) (h : History) (new : contains l.seen_states s.name ≡ false) where
    enter_idle :
        s.transition ≡ none
        → enter_state env machine s l h
          ≡ outputs_turn s l (idle env machine l.obj) (own_condition env machine s l) h
    unfolding enter_state marked_loop marked_result
    enter_idle e = simp (new, e)

    enter_worked :
        (f : TransitionFunc)
        → s.transition ≡ some f
        → is_done (step env machine f l h).result ≡ true
        → let t = step env machine f l h in
          let h₁ = stepped env machine s t h in
          enter_state env machine s l h
          ≡ outputs_turn s l t
              (customize env machine
                (marked_condition env machine s (true_condition env machine s l h₁) t.result)
                (marked_result env machine s t.result))
              h₁
    unfolding enter_state run_transition after_transition
    enter_worked f e d =
        simp (new, e) (rw (marked-done env machine s (step env machine f l h).result ∙ d) refl)

    enter_unfinished :
        (f : TransitionFunc)
        → s.transition ≡ some f
        → is_done (step env machine f l h).result ≡ false
        → let t = step env machine f l h in
          let h₁ = stepped env machine s t h in
          enter_state env machine s l h ≡ (
            stop_unfinished env machine
                (marked_loop env machine s (entered env machine s l) t)
                (marked_condition env machine s (true_condition env machine s l h₁) t.result)
                (marked_result env machine s t.result),
            h₁,
          )
    unfolding enter_state run_transition after_transition
    enter_unfinished f e d =
        simp (new, e) (rw (marked-done env machine s (step env machine f l h).result ∙ d) refl)

    enter_done :
        (t : Transitioned) (c : Condition) (h₁ : History)
        → Done env machine s l h t c h₁
        → enter_state env machine s l h ≡ outputs_turn s l t c h₁
    enter_done t c h₁ (idled e te ce he) = rw te (rw ce (rw he (enter_idle e)))
    enter_done t c h₁ (worked f e d te ce he) = rw te (rw ce (rw he (enter_worked f e d)))

    module _ (t : Transitioned) (c : Condition) (h₁ h₂ : History)
        (done : Done env machine s l h t c h₁) where
      enter_applied :
          (r : Try Object)
          → apply_outputs env machine t.obj t.out h₁ ≡ (r, h₂)
          → enter_state env machine s l h ≡ (turn_after env machine s l t c r, h₂)
      unfolding finish_turn marked_loop
      enter_applied r applied = enter_done t c h₁ done ∙ rw applied refl

  some_injective :
      {out out' : Object × Object × Result}
      → ◌≡◌ {A = Option (Object × Object × Result)} (some out) (some out')
      → out ≡ out'
  some_injective e = cc

  -- One round of the loop, by what entering the state comes to.
  one_stop :
      (s : State) (l : Loop) (h : History) (obj conditions : Object) (result : Result)
      (h' : History)
      → enter_state env machine s l h ≡ (stop obj conditions result, h')
      → run_states env machine 1 (some s) l h ≡ (some (obj, conditions, result), h')
  unfolding run_states
  one_stop s l h obj conditions result h' e = rw e refl

  one_round :
      (fuel : ℕ) (s : State) (l : Loop) (h : History) (next : Option ℕ) (l' : Loop) (h₁ : History)
      → enter_state env machine s l h ≡ (go next l', h₁)
      → run_states env machine (suc fuel) (some s) l h
        ≡ run_states env machine fuel (state_at env machine next) l' h₁
  unfolding run_states
  one_round fuel s l h next l' h₁ e = rw e refl

  -- A run of the loop with more fuel has the same result.
  more_fuel :
      (fuel : ℕ) (o : Option State) (l : Loop) (h : History) (out : Object × Object × Result)
      (h' : History)
      → run_states env machine fuel o l h ≡ (some out, h')
      → run_states env machine (suc fuel) o l h ≡ (some out, h')
  unfolding run_states
  more_fuel zero none l h out h' e = e
  more_fuel (suc fuel) none l h out h' e = e
  more_fuel zero (some s) l h out h' e = cc
  more_fuel (suc fuel) (some s) l h out h' e =
      let (turn, h₁) = enter_state env machine s l h in
      again turn h₁ (λ o l'. more_fuel fuel o l' h₁ out h') e
    where
      again :
          (turn : Turn) (h₁ : History)
          → ((o : Option State) (l' : Loop)
              → run_states env machine fuel o l' h₁ ≡ (some out, h')
              → run_states env machine (suc fuel) o l' h₁ ≡ (some out, h'))
          → after_turn env machine (run_states env machine fuel) turn h₁ ≡ (some out, h')
          → after_turn env machine (run_states env machine (suc fuel)) turn h₁ ≡ (some out, h')
      again (stop obj conditions result) h₁ more e = e
      again (go next l') h₁ more e = more (state_at env machine next) l' e

  much_fuel :
      (k fuel : ℕ) (o : Option State) (l : Loop) (h : History) (out : Object × Object × Result)
      (h' : History)
      → run_states env machine fuel o l h ≡ (some out, h')
      → run_states env machine (k + fuel) o l h ≡ (some out, h')
  much_fuel zero fuel o l h out h' e =
      subst (λ n. run_states env machine n o l h ≡ (some out, h')) (omega arith) e
  much_fuel (suc k) fuel o l h out h' e =
      subst (λ n. run_states env machine n o l h ≡ (some out, h')) (omega arith)
        (more_fuel (k + fuel) o l h out h' (much_fuel k fuel o l h out h' e))

  run_states_complete :
      {o : Option State} {l : Loop} {h : History} {out : Object × Object × Result} {h' : History}
      → Run env machine o l h out h'
      → (fuel : ℕ) × (run_states env machine fuel o l h ≡ (some out, h'))
  run_states_complete (Run.ended {l} {h}) = (0, unfold run_states in refl)
  run_states_complete (Run.re_entered {s} {l} {h} old) =
      (1, one_stop s l h _ _ _ h (enter_seen env machine s l h old))
  run_states_complete (Run.unfinished {s} {l} {h} f new e d c ce) = (
    1,
    one_stop s l h _ _ _ _
        (enter_unfinished s l h new f e d ∙ rw ce (unfold stop_unfinished marked_loop in refl)),
  )
  run_states_complete (Run.failed {s} {l} {h} {h₁} {h₂} {t} {c} {e} new done applied) = (
    1,
    one_stop s l h _ _ _ h₂ (
        enter_applied s l h new t c h₁ h₂ done (err e) applied
        ∙ unfold after_outputs marked_loop in refl),
  )
  run_states_complete (Run.requeued {s} {l} {h} {h₁} {h₂} {t} {c} {obj} new done applied early) = (
    1,
    one_stop s l h _ _ _ h₂ (
        enter_applied s l h new t c h₁ h₂ done (ok obj) applied
        ∙ ap (λ turn. (turn, h₂)) (early_turn env machine s l t c obj early)),
  )
  run_states_complete
        (Run.proceeds {s} {l} {h} {h₁} {h₂} {h₃} {t} {c} {obj} new done applied late rest) =
      let (fuel, e) = run_states_complete rest in
      (
        suc fuel,
        one_round fuel s l h t.next (onward env machine s l t c obj) h₂ (
              enter_applied s l h new t c h₁ h₂ done (ok obj) applied
              ∙ ap (λ turn. (turn, h₂)) (late_turn env machine s l t c obj late))
            ∙ e,
      )

  -- Two runs from the same state have the same end.
  pub one_run :
      (o : Option State) (l : Loop) (h : History) (out out' : Object × Object × Result)
      (h₁ h₂ : History)
      → Run env machine o l h out h₁
      → Run env machine o l h out' h₂
      → (out ≡ out') × (h₁ ≡ h₂)
  one_run o l h out out' h₁ h₂ run run' =
      let (m, e) = run_states_complete run in
      let (n, e') = run_states_complete run' in
      same (
        sym (much_fuel n m o l h out h₁ e)
        ∙ ap (λ k. run_states env machine k o l h) (omega arith)
        ∙ much_fuel m n o l h out' h₂ e')
    where
      same :
          ◌≡◌ {A = Option (Object × Object × Result) × History} (some out, h₁) (some out', h₂)
          → (out ≡ out') × (h₁ ≡ h₂)
      same e = (some_injective (ap (λ x. x.0) e), ap (λ x. x.1) e)

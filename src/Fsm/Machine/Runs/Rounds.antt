-- ===== src/Fsm/Machine/Runs/Rounds.antt =====
-- A round of the loop over the states begins a run (pkg/fsm/internal/reconciler.go): one lemma for
-- each function that a round calls.
use achilles_sdk.Api.{Condition, Env, Error, History, Object, Try, err, ok}
use achilles_sdk.Fsm.Machine.{
  new_output_set, marked_condition, TransitionFunc, stop_unfinished, after_transition,
  run_transition, enter_state, Loop, Machine, State, Transitioned, Turn, add_condition,
  after_outputs, apply_outputs, finish_turn, go, marked_loop, marked_result, state_at, stop,
}
use achilles_sdk.Fsm.Machine.Runs.{
  idle, idled, true_condition, worked, stepped, step, own_condition, Done, Run, is_early,
}
use achilles_sdk.Fsm.Types.Result.{Result, has_requeue, is_done, zero_result}
use achilles_sdk.Prelude.{
  Bool-cases, Option, Option-cases, arith, contains, false, if◌then◌else◌, inl, inr, none, refl,
  some, string_eq, sym, true, ℕ, ◌∙◌, ◌∷◌, ◌≡◌, ◌⊎◌,
}

module _ (env : Env) (machine : Machine) where
  -- A round of the loop is the beginning of a run.
  pub data Round (s : State) (l : Loop) (h : History) : Turn → History → Type 0 where
    stopped :
        {obj conditions : Object} {result : Result} {h' : History}
        → Run env machine (some s) l h (obj, conditions, result) h'
        → Round s l h (stop obj conditions result) h'
    going :
        {next : Option ℕ} {l' : Loop} {h' : History}
        → ((out : Object × Object × Result) (h'' : History)
            → Run env machine (state_at env machine next) l' h' out h''
            → Run env machine (some s) l h out h'')
        → Round s l h (go next l') h'

  abbrev pub entered : State → Loop → Loop
  entered s l = record l { seen_states = s.name ∷ l.seen_states }

  -- What an attempt to apply outputs comes to.
  applied-cases :
      (x : Try Object × History)
      → ((obj : Object) × (h : History) × (x ≡ (ok obj, h)))
        ⊎ ((e : Error) × (h : History) × (x ≡ (err e, h)))
  applied-cases (ok obj, h) = inl (obj, h, refl)
  applied-cases (err e, h) = inr (e, h, refl)

  module _ (s : State) (l : Loop) (t : Transitioned) (c : Condition) where
    -- The loop's variables in the next round, if there is one.
    abbrev pub onward : Object → Loop
    onward obj = record {
      obj = obj;
      conditions = add_condition env machine l.conditions c;
      seen_states = s.name ∷ l.seen_states;
      requeue_after_completion =
          if t.result.requeue_after_completion
          then marked_result env machine s t.result
          else l.requeue_after_completion;
    }

    abbrev pub turn_after : Try Object → Turn
    turn_after r =
        after_outputs env machine (marked_loop env machine s (entered s l) t) t.next c
          (marked_result env machine s t.result) r

    pub early_turn :
        (obj : Object)
        → is_early t.result ≡ true
        → turn_after (ok obj) ≡ stop obj (add_condition env machine l.conditions c) t.result
    unfolding after_outputs marked_loop marked_result has_requeue
    early_turn obj early = ground arith

    pub late_turn :
        (obj : Object) → is_early t.result ≡ false → turn_after (ok obj) ≡ go t.next (onward obj)
    unfolding after_outputs marked_loop marked_result has_requeue
    late_turn obj late = ground arith

    module _ (h h₁ : History) (new : contains l.seen_states s.name ≡ false)
        (done : Done env machine s l h t c h₁) where
      applied-Round :
          (obj : Object) (h₂ : History)
          → apply_outputs env machine t.obj t.out h₁ ≡ (ok obj, h₂)
          → Round s l h (turn_after (ok obj)) h₂
      applied-Round obj h₂ applied = elim (Bool-cases (is_early t.result)) [
        | inl early ↦ rw (early_turn obj early) (stopped (Run.requeued new done applied early))
        | inr late ↦
            rw (late_turn obj late) (going λ out h'' rest. Run.proceeds new done applied late rest)
      ]

      failed-Round :
          (e : Error) (h₂ : History)
          → apply_outputs env machine t.obj t.out h₁ ≡ (err e, h₂)
          → Round s l h (turn_after (err e)) h₂
      unfolding after_outputs marked_loop
      failed-Round e h₂ applied = stopped (Run.failed new done applied)

      finish_turn-Round :
          let x =
            finish_turn env machine
              (marked_loop env machine s (entered s l) t)
              t.out
              t.next
              c
              (marked_result env machine s t.result)
              h₁ in
          Round s l h x.0 x.1
      unfolding finish_turn marked_loop
      finish_turn-Round = elim (applied-cases (apply_outputs env machine t.obj t.out h₁)) [
        | inl (obj, h₂, e) ↦ rw e (applied-Round obj h₂ e)
        | inr (e, h₂, p) ↦ rw p (failed-Round e h₂ p)
      ]

  pub marked-done : (s : State) (r : Result) → is_done (marked_result env machine s r) ≡ is_done r
  unfolding marked_result is_done
  marked-done s r = ground arith

  module _ (s : State) (l : Loop) (h : History) (new : contains l.seen_states s.name ≡ false) where
    idle-Round :
        s.transition ≡ none
        → let x =
            finish_turn env machine
              (entered s l)
              (new_output_set env)
              none
              (own_condition env machine s l)
              zero_result
              h in
          Round s l h x.0 x.1
    unfolding marked_loop marked_result
    idle-Round e =
        finish_turn-Round s l (idle env machine l.obj) (own_condition env machine s l) h h new
          (idled e refl refl refl)

    unfinished-Round :
        (f : TransitionFunc)
        → s.transition ≡ some f
        → is_done (step env machine f l h).result ≡ false
        → let t = step env machine f l h in
          let h₁ = stepped env machine s t h in
          Round s l h
            (stop_unfinished env machine
              (marked_loop env machine s (entered s l) t)
              (marked_condition env machine s (true_condition env machine s l h₁) t.result)
              (marked_result env machine s t.result))
            h₁
    unfolding stop_unfinished marked_loop
    unfinished-Round f e d = stopped (Run.unfinished f new e d _ refl)

    run_transition-Round :
        (f : TransitionFunc)
        → s.transition ≡ some f
        → let x = run_transition env machine s (entered s l) (own_condition env machine s l) f h in
          Round s l h x.0 x.1
    unfolding run_transition after_transition
    run_transition-Round f e =
        let t = step env machine f l h in
        let h₁ = stepped env machine s t h in
        elim (Bool-cases (is_done (marked_result env machine s t.result))) [
          | inl d ↦ rw d (
              finish_turn-Round s l t _ h h₁ new
                (worked f e (sym (marked-done s t.result) ∙ d) refl refl refl))
          | inr d ↦ rw d (unfinished-Round f e (sym (marked-done s t.result) ∙ d))
        ]

  pub enter_state-Round :
      (s : State) (l : Loop) (h : History)
      → let x = enter_state env machine s l h in Round s l h x.0 x.1
  unfolding enter_state
  enter_state-Round s l h = elim (Bool-cases (contains l.seen_states s.name)) [
    | inl old ↦ rw old (stopped (Run.re_entered old))
    | inr new ↦ elim (Option-cases s.transition) [
      | inl e ↦ simp (new, e) (idle-Round s l h new e)
      | inr (f, e) ↦ simp (new, e) (run_transition-Round s l h new f e)
    ]
  ]

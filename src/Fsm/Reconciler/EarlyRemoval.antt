-- ===== src/Fsm/Reconciler/EarlyRemoval.antt =====
-- A finalizer state whose result is done and asks for a requeue (pkg/fsm/internal/reconciler.go).
use achilles_sdk.Api.{
  Condition, Env, History, Object, empty_object, metric, ok, record_state_duration, Try, err,
}
use achilles_sdk.Fsm.Machine.{
  Loop, State, TransitionFunc, Transitioned, add_condition, after_outputs, after_transition,
  apply_outputs, enter_state, finish_turn, marked_loop, marked_result, run_states, run_transition,
  stop,
}
use achilles_sdk.Fsm.Reconciler.{
  Reconciler, after_apply_status, conclude, finalizer_key, finish_finalizer, first_state,
  merge_conditions, reconciled, run_machine,
}
use achilles_sdk.Fsm.Types.OutputSet.{new_output_set}
use achilles_sdk.Fsm.Types.Result.{Result, has_requeue, is_done, zero_result}
use achilles_sdk.Io.Applicator.{apply_status}
use achilles_sdk.Meta.{remove_finalizer, was_deleted}
use achilles_sdk.Prelude.{
  Bool, Bool-cases, if◌then◌else◌, inl, inr, ◌&&◌, Option, [], false, nat_eq, refl, some, string_eq,
  suc, true, ℕ, ◌++◌, ◌∷◌, ◌≡◌,
}

-- The status was written.
abbrev pub is_written : Try (Unit {0}) → Bool
is_written (ok _) = true
is_written (err e) = false

module _ (env : Env) (r : Reconciler) (i : ℕ) (f : TransitionFunc) (obj : Object)
    (h : History) where
  -- What the transition function of the first finalizer state does, and the history after it.
  abbrev pub first_step : Transitioned
  first_step = f obj (new_output_set env) h

  abbrev pub first_history : History
  first_history =
      metric (record_state_duration first_step.obj.gvk (r.machine.states i).name)
        ∷ first_step.requests
      ++ h

  -- A result that is not late is not marked.
  not_marked :
      (s : State) (result : Result)
      → result.requeue_after_completion ≡ false
      → marked_result env r.machine s result ≡ result
  unfolding marked_result
  not_marked s result early = rw early

  requeued_turn :
      (l : Loop) (next : Option ℕ) (c : Condition) (result : Result) (obj' : Object)
      → result.requeue_after_completion ≡ false
      → has_requeue result ≡ true
      → after_outputs env r.machine l next c result (ok obj')
        ≡ stop obj' (add_condition env r.machine l.conditions c) result
  unfolding after_outputs
  requeued_turn l next c result obj' early requeue = rw (requeue, early)

  requeued_finish :
      (l : Loop) (next : Option ℕ) (c : Condition) (obj' : Object) (h' : History)
      → l.obj ≡ first_step.obj
      → first_step.result.requeue_after_completion ≡ false
      → has_requeue first_step.result ≡ true
      → apply_outputs env r.machine first_step.obj first_step.out first_history ≡ (ok obj', h')
      → finish_turn env r.machine l first_step.out next c first_step.result first_history
        ≡ (stop obj' (add_condition env r.machine l.conditions c) first_step.result, h')
  unfolding finish_turn
  requeued_finish l next c obj' h' same early requeue applied =
      rw (same, applied) (cc (requeued_turn l next c first_step.result obj' early requeue))

  requeued_round :
      (l : Loop) (c : Condition) (obj' : Object) (h' : History)
      → is_done first_step.result ≡ true
      → first_step.result.requeue_after_completion ≡ false
      → has_requeue first_step.result ≡ true
      → apply_outputs env r.machine first_step.obj first_step.out first_history ≡ (ok obj', h')
      → (conditions : Object) × (after_transition env r.machine
            (r.machine.states i)
            l
            c
            first_step
            first_history
          ≡ (stop obj' conditions first_step.result, h'))
  unfolding after_transition
  requeued_round l c obj' h' done early requeue applied =
      rw (not_marked (r.machine.states i) first_step.result early) (
        rw done (
          _,
          requeued_finish (marked_loop env r.machine (r.machine.states i) l first_step)
              first_step.next _ obj' h' (unfold marked_loop in refl) early requeue applied,
        ))

  requeued_entry :
      (conditions obj' : Object) (h' : History)
      → (r.machine.states i).transition ≡ some f
      → is_done first_step.result ≡ true
      → first_step.result.requeue_after_completion ≡ false
      → has_requeue first_step.result ≡ true
      → apply_outputs env r.machine first_step.obj first_step.out first_history ≡ (ok obj', h')
      → (c : Object) × (enter_state env r.machine
            (r.machine.states i)
            (record {
              obj = obj;
              conditions = conditions;
              seen_states = [];
              requeue_after_completion = zero_result;
            })
            h
          ≡ (stop obj' c first_step.result, h'))
  unfolding enter_state run_transition
  requeued_entry conditions obj' h' trans done early requeue applied =
      rw trans (requeued_round _ _ obj' h' done early requeue applied)

  requeued_machine :
      (fuel : ℕ) (obj' : Object) (h' : History)
      → was_deleted obj ≡ true
      → r.finalizer_state ≡ some i
      → (r.machine.states i).transition ≡ some f
      → is_done first_step.result ≡ true
      → first_step.result.requeue_after_completion ≡ false
      → has_requeue first_step.result ≡ true
      → apply_outputs env r.machine first_step.obj first_step.out first_history ≡ (ok obj', h')
      → (conditions : Object) × (run_machine env r (suc fuel) obj h
          ≡ (some (reconciled obj' conditions first_step.result), h'))
  unfolding run_machine first_state run_states
  requeued_machine fuel obj' h' deleted final trans done early requeue applied =
      let (c, e) = requeued_entry (empty_object r.gvk) obj' h' trans done early requeue applied in
      (c, simp (deleted, final, e))

  after_write :
      (o : Object) (result : Result) (h'' : History) (written : Try (Unit {0}))
      → r.finalizer_state ≡ some i
      → is_done result ≡ true
      → (after_apply_status env r o result written h'').1 ≡ (
          if is_written written && was_deleted o
          then (remove_finalizer env o finalizer_key h'').1
          else h'')
  unfolding after_apply_status finish_finalizer
  after_write o result h'' (err e) final done = refl
  after_write o result h'' (ok tt) final done = elim (Bool-cases (was_deleted o)) [
    | inl deleted ↦ simp (deleted, final, done)
    | inr kept ↦ simp kept
  ]

  -- The first finalizer state ends the reconciliation if its result is done and asks for a requeue
  -- before completion, and its outputs can be applied: whatever next state it names, the object is
  -- returned with that result. The result counts as done, so `Reconcile` writes the status and then
  -- removes the finalizer of the object, unless the write failed or the object is not marked as
  -- deleted any more; nothing else comes after the write.
  pub finalizer_removed_early :
      (fuel : ℕ) (obj' : Object) (h' : History)
      → was_deleted obj ≡ true
      → r.finalizer_state ≡ some i
      → (r.machine.states i).transition ≡ some f
      → is_done first_step.result ≡ true
      → first_step.result.requeue_after_completion ≡ false
      → has_requeue first_step.result ≡ true
      → apply_outputs env r.machine first_step.obj first_step.out first_history ≡ (ok obj', h')
      → (conditions : Object) × (run_machine env r (suc fuel) obj h
          ≡ (some (reconciled obj' conditions first_step.result), h'))
        × ((conclude env r (reconciled obj' conditions first_step.result) h').1 ≡ (
            let merged = merge_conditions env r obj' conditions h' in
            let (written, h'') = apply_status env merged [] h' in
            if is_written written && was_deleted merged
            then (remove_finalizer env merged finalizer_key h'').1
            else h''))
  finalizer_removed_early fuel obj' h' deleted final trans done early requeue applied =
      let (c, e) = requeued_machine fuel obj' h' deleted final trans done early requeue applied in
      let merged = merge_conditions env r obj' c h' in
      let (written, h'') = apply_status env merged [] h' in
      (c, e, unfold conclude in after_write merged first_step.result h'' written final done)

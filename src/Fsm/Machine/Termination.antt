-- ===== src/Fsm/Machine/Termination.antt =====
-- The loop over the states ends (pkg/fsm/internal/reconciler.go): `seenStates` stops a machine that
-- comes back to a state.
use achilles_sdk.Api.{
  record_state_duration, metric, re_entered_state, err, ok, Try, Condition, Env, History, Object,
}
use achilles_sdk.Fsm.Machine.{
  after_turn, stop_unfinished, marked_loop, marked_result, new_output_set, error_result,
  run_transition, has_requeue, TransitionFunc, apply_outputs, is_done, ApplyOption, OutputSet, Loop,
  Machine, State, Turn, enter_state, go, run_states, state_at, stop, finish_turn, after_transition,
  after_outputs,
}
use achilles_sdk.Fsm.Types.Result.{Result}
use achilles_sdk.Prelude.{
  Bool, Bool-cases, List, Option, Option-cases, String, [], arith, contains, eq_iff, false,
  if◌then◌else◌, inl, inr, is_some, length, none, not, refl, some, string_eq, suc, true, zero, ℕ,
  ◌&&◌, ◌++◌, ◌<◌, ◌∷◌, ◌≡◌, ◌≤◌,
}

-- How many of the names have not been seen.
abbrev pub unseen : List String → List String → ℕ
unseen [] seen = 0
unseen (n ∷ names) seen = let rest = unseen names seen in if contains seen n then rest else suc rest

pub unseen_le_length : (names seen : List String) → unseen names seen ≤ length names
unseen_le_length [] seen = omega arith
unseen_le_length (n ∷ names) seen = ground (arith, unseen_le_length names seen)

unseen_mono : (names seen : List String) (s : String) → unseen names (s ∷ seen) ≤ unseen names seen
unseen_mono [] seen s = omega arith
unseen_mono (n ∷ names) seen s = ground (arith, unseen_mono names seen s)

-- Seeing one of the names for the first time leaves fewer.
unseen_lt :
    (names seen : List String) (s : String)
    → contains names s ≡ true
    → contains seen s ≡ false
    → unseen names (s ∷ seen) < unseen names seen
unseen_lt [] seen s h new = ground arith
unseen_lt (n ∷ names) seen s h new =
    ground (arith, eq_iff n s, eq_iff s n, unseen_mono names seen s, unseen_lt names seen s)

-- If the round goes on, it does so with these states seen.
data Sees (seen : List String) : Turn → Type 0 where
  stopped : {obj conditions : Object} {result : Result} → Sees seen (stop obj conditions result)
  going : {next : Option ℕ} {l : Loop} → l.seen_states ≡ seen → Sees seen (go next l)

Sees-if :
    {seen : List String} (b : Bool) {t u : Turn}
    → Sees seen t
    → Sees seen u
    → Sees seen (if b then t else u)
Sees-if true p q = p
Sees-if false p q = q

Sees-if_pair :
    {seen : List String} (b : Bool) (t u : Turn × History)
    → (b ≡ true → Sees seen t.0)
    → (b ≡ false → Sees seen u.0)
    → Sees seen (if b then t else u).0
Sees-if_pair true t u p q = p refl
Sees-if_pair false t u p q = q refl

module _ (env : Env) (machine : Machine) where
  after_outputs-Sees :
      (l : Loop) (next : Option ℕ) (c : Condition) (result : Result) (r : Try Object)
      → Sees l.seen_states (after_outputs env machine l next c result r)
  unfolding after_outputs
  after_outputs-Sees l next c result (ok obj) =
      Sees-if (has_requeue result && not result.requeue_after_completion) stopped (going refl)
  after_outputs-Sees l next c result (err e) = stopped

  finish_turn-Sees :
      (l : Loop) (out : OutputSet ApplyOption) (next : Option ℕ) (c : Condition) (result : Result)
      (h : History)
      → Sees l.seen_states (finish_turn env machine l out next c result h).0
  unfolding finish_turn
  finish_turn-Sees l out next c result h =
      let (r, h') = apply_outputs env machine l.obj out h in after_outputs-Sees l next c result r

  run_transition-Sees :
      (s : State) (l : Loop) (c : Condition) (f : TransitionFunc) (h : History)
      → Sees l.seen_states (run_transition env machine s l c f h).0
  unfolding run_transition after_transition marked_loop finish_turn
  run_transition-Sees s l c f h =
      let t = f l.obj (new_output_set env) h in
      let h' = metric (record_state_duration t.obj.gvk s.name) ∷ t.requests ++ h in
      elim (Bool-cases (is_done (marked_result env machine s t.result))) [
        | inl d ↦ rw d (finish_turn-Sees (marked_loop env machine s l t) _ _ _ _ h')
        | inr d ↦ rw d (unfold stop_unfinished in stopped)
      ]

  enter_state-Sees :
      (s : State) (l : Loop) (h : History)
      → contains l.seen_states s.name ≡ false
      → Sees (s.name ∷ l.seen_states) (enter_state env machine s l h).0
  unfolding enter_state
  enter_state-Sees s l h new = elim (Option-cases s.transition) [
    | inl e ↦
        rw (new, e) (finish_turn-Sees (record l { seen_states = s.name ∷ l.seen_states }) _ _ _ _ h)
    | inr (f, e) ↦
        rw (new, e)
          (run_transition-Sees s (record l { seen_states = s.name ∷ l.seen_states })
            (record (s.condition) { observed_generation = l.obj.generation }) f h)
  ]

  -- A state that was seen stops the loop.
  pub enter_seen :
      (s : State) (l : Loop) (h : History)
      → contains l.seen_states s.name ≡ true
      → enter_state env machine s l h
        ≡ (stop l.obj l.conditions (error_result (re_entered_state s.name)), h)
  unfolding enter_state
  enter_seen s l h old = rw old

  after_turn_some :
      (again : Option State → Loop → History → Option (Object × Object × Result) × History)
      {seen : List String} (turn : Turn) (h : History)
      → Sees seen turn
      → ((next : Option ℕ) (l : Loop)
          → l.seen_states ≡ seen
          → is_some (again (state_at env machine next) l h).0 ≡ true)
      → is_some (after_turn env machine again turn h).0 ≡ true
  after_turn_some again (stop o c r) h t f = refl
  after_turn_some again (go next l) h (going e) f = f next l e

  abbrev pub IsNamed : List String → Option State → Type 0
  IsNamed names none = Unit
  IsNamed names (some s) = contains names s.name ≡ true

  -- The loop ends: if every state of the machine, and the one to begin with, has its name in a
  -- list, then fuel beyond the number of names that have not been seen lets the loop return,
  -- whatever the transition functions and the API server do.
  pub run_states_total :
      (fuel : ℕ) (names : List String) (o : Option State) (l : Loop) (h : History)
      → ((i : ℕ) → contains names (machine.states i).name ≡ true)
      → IsNamed names o
      → unseen names l.seen_states < fuel
      → is_some (run_states env machine fuel o l h).0 ≡ true
  unfolding run_states
  run_states_total zero names none l h known named enough = refl
  run_states_total (suc fuel) names none l h known named enough = refl
  run_states_total zero names (some s) l h known named enough = absurd (omega arith)
  run_states_total (suc fuel) names (some s) l h known named enough =
      elim (Bool-cases (contains l.seen_states s.name)) [
        | inl old ↦ rw (enter_seen s l h old)
        | inr new ↦
            let (turn, h') = enter_state env machine s l h in
            after_turn_some (run_states env machine fuel) turn h' (enter_state-Sees s l h new)
              λ next l' e.
                run_states_total fuel names (state_at env machine next) l' h' known
                  (next_named next)
                  (rw e (omega (arith, unseen_lt names l.seen_states s.name named new)))
      ]
    where
      next_named : (next : Option ℕ) → IsNamed names (state_at env machine next)
      next_named none = tt
      next_named (some i) = known i

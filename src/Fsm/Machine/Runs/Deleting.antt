-- ===== src/Fsm/Machine/Runs/Deleting.antt =====
-- A run of the machine for an object that is being deleted (pkg/fsm/internal/reconciler.go).
use achilles_sdk.Api.{
  Condition, Env, Gvk, History, Object, Request, Try, create, create_dry_run, delete,
  delete_foreground, dpanic, get, metric, ok, patch, patch_status, update, update_status,
}
use achilles_sdk.Api.Answers.{Holds, Returns-bind}
use achilles_sdk.Api.Effects.{Emits, Emits-bind, emits_rules, then_added}
use achilles_sdk.Fsm.Machine.{
  Loop, Machine, State, TransitionFunc, Transitioned, apply_outputs, report_unmanaged, state_at,
}
use achilles_sdk.Fsm.Machine.Runs.{Done, Run, step, stepped}
use achilles_sdk.Fsm.Outputs.Footprint.{Emits-apply_output_set_deleted}
use achilles_sdk.Fsm.Outputs.Parent.{IsDeletedAlike, apply_output_set-Returns}
use achilles_sdk.Fsm.Types.OutputSet.{OutputSet}
use achilles_sdk.Fsm.Types.Result.{Result}
use achilles_sdk.Io.Applicator.{ApplyOption}
use achilles_sdk.Meta.{was_deleted}
use achilles_sdk.Prelude.{
  All, List, Option, [], ap, none, refl, some, subst, sym, true, ◌++◌, ◌∙◌, ◌∷◌, ◌≡◌, ℕ,
}

-- Everything but creating an object, even as a dry run, and updating one as a whole.
abbrev pub IsTeardown : Request → Type 0
IsTeardown (get _ _) = Unit
IsTeardown (create _) = ⊥
IsTeardown (create_dry_run _) = ⊥
IsTeardown (update _) = ⊥
IsTeardown (patch _) = Unit
IsTeardown (delete _) = Unit
IsTeardown (delete_foreground _) = Unit
IsTeardown (update_status _) = Unit
IsTeardown (patch_status _) = Unit
IsTeardown (metric _) = Unit
IsTeardown (dpanic _) = Unit

-- The second history is the first with such requests on top.
abbrev pub TearsDown : History → History → Type 0
TearsDown h h' = (added : List Request) × (h' ≡ added ++ h) × All IsTeardown added

pub nothing_added : (h : History) → TearsDown h h
nothing_added h = ([], refl, tt)

pub one_added :
    {h h' : History} (q : Request) → IsTeardown q → TearsDown h h' → TearsDown h (q ∷ h')
one_added q p (added, e, all) = (q ∷ added, ap (λ t. q ∷ t) e, (p, all))

-- A transition function keeps an object that is being deleted that way, and makes only such
-- requests for it.
abbrev pub Tidied : Transitioned → Type 0
Tidied t = (was_deleted t.obj ≡ true) × All IsTeardown t.requests

report_unmanaged-TearsDown :
    (types : List Gvk) (os : List Object) → Emits IsTeardown (report_unmanaged types os)
unfolding report_unmanaged
report_unmanaged-TearsDown types [] = search emits_rules
report_unmanaged-TearsDown types (o ∷ os) =
    let rest = λ (_ : Unit {0}). report_unmanaged-TearsDown types os in
    let panics : IsTeardown (dpanic o.gvk) = tt in search (emits_rules, panics, rest) depth 12

module _ (env : Env) (machine : Machine) where
  apply_outputs-TearsDown :
      (obj : Object) (out : OutputSet ApplyOption)
      → was_deleted obj ≡ true
      → Emits IsTeardown (apply_outputs env machine obj out)
  unfolding apply_outputs
  apply_outputs-TearsDown obj out deleted =
      Emits-bind _ _ (report_unmanaged-TearsDown machine.managed_types _) λ _.
        Emits-apply_output_set_deleted env {P = IsTeardown} (λ g k. tt) (λ o. tt) (λ o e. tt)
          (λ o. tt) (λ o. tt) obj _ deleted

  apply_outputs-deleted :
      (obj obj' : Object) (out : OutputSet ApplyOption) (h h' : History)
      → apply_outputs env machine obj out h ≡ (ok obj', h')
      → was_deleted obj ≡ true
      → was_deleted obj' ≡ true
  unfolding apply_outputs
  apply_outputs-deleted obj obj' out h h' applied deleted =
      let alike =
        Returns-bind (IsDeletedAlike env obj) _ _ λ _. apply_output_set-Returns env obj _ in
      subst (Holds (IsDeletedAlike env obj)) (ap (λ x. x.0) applied) (alike.at h) ∙ deleted

  applied_lem :
      {r : Try Object} (obj : Object) (out : OutputSet ApplyOption) (h h' : History)
      → apply_outputs env machine obj out h ≡ (r, h')
      → was_deleted obj ≡ true
      → TearsDown h h'
  applied_lem obj out h h' applied deleted =
      let (added, e, p) = (apply_outputs-TearsDown obj out deleted).at h in
      (added, sym (ap (λ x. x.1) applied) ∙ e, p)

  -- A state whose transition function, if it has one, is tidy.
  abbrev pub IsTidy : State → Type 0
  IsTidy s =
      (f : TransitionFunc) (obj : Object) (out : OutputSet ApplyOption) (h : History)
      → s.transition ≡ some f
      → was_deleted obj ≡ true
      → Tidied (f obj out h)

  abbrev pub AllTidy : Option State → Type 0
  AllTidy none = Unit
  AllTidy (some s) = IsTidy s

  stepped_lem :
      (s : State) (l : Loop) (h : History) (f : TransitionFunc)
      → IsTidy s
      → s.transition ≡ some f
      → was_deleted l.obj ≡ true
      → TearsDown h (stepped env machine s (step env machine f l h) h)
  stepped_lem s l h f tidy has deleted =
      let t = step env machine f l h in
      one_added _ tt (t.requests, refl, (tidy f l.obj _ h has deleted).1)

  Done-TearsDown :
      {s : State} {l : Loop} {h h₁ : History} {t : Transitioned} {c : Condition}
      → Done env machine s l h t c h₁
      → IsTidy s
      → was_deleted l.obj ≡ true
      → TearsDown h h₁ × (was_deleted t.obj ≡ true)
  Done-TearsDown {s} {l} {h} (Done.idled has same own stays) tidy deleted =
      (([], stays, tt), ap (λ t. was_deleted t.obj) same ∙ deleted)
  Done-TearsDown {s} {l} {h} (Done.worked f has done same own then) tidy deleted = (
    subst (TearsDown h) (sym then) (stepped_lem s l h f tidy has deleted),
    ap (λ t. was_deleted t.obj) same ∙ (tidy f l.obj _ h has deleted).0,
  )

  module _ (tidy : (i : ℕ) → IsTidy (machine.states i)) where
    state_at-AllTidy : (o : Option ℕ) → AllTidy (state_at env machine o)
    state_at-AllTidy none = tt
    state_at-AllTidy (some i) = tidy i

    -- Whatever such a machine does for an object that is being deleted creates and updates nothing.
    pub Run-TearsDown :
        {o : Option State} {l : Loop} {h h' : History} {out : Object × Object × Result}
        → Run env machine o l h out h'
        → AllTidy o
        → was_deleted l.obj ≡ true
        → TearsDown h h'
    Run-TearsDown {h = h} Run.ended first_tidy deleted = nothing_added h
    Run-TearsDown {h = h} (Run.re_entered seen) first_tidy deleted = nothing_added h
    Run-TearsDown {l = l} {h = h} (Run.unfinished {s = s} f new has undone c own) first_tidy
          deleted =
        stepped_lem s l h f first_tidy has deleted
    Run-TearsDown (Run.failed {h₁ = h₁} {h₂ = h₂} {t = t} new done applied) first_tidy deleted =
        let (first, still) = Done-TearsDown done first_tidy deleted in
        then_added first (applied_lem t.obj t.out h₁ h₂ applied still)
    Run-TearsDown (Run.requeued {h₁ = h₁} {h₂ = h₂} {t = t} new done applied early) first_tidy
          deleted =
        let (first, still) = Done-TearsDown done first_tidy deleted in
        then_added first (applied_lem t.obj t.out h₁ h₂ applied still)
    Run-TearsDown (Run.proceeds {h₁ = h₁} {h₂ = h₂} {t = t} {obj = obj} new done applied late rest)
          first_tidy deleted =
        let (first, still) = Done-TearsDown done first_tidy deleted in
        then_added (then_added first (applied_lem t.obj t.out h₁ h₂ applied still)) (
          Run-TearsDown rest (state_at-AllTidy t.next)
            (apply_outputs-deleted t.obj obj t.out h₁ h₂ applied still))

-- ===== src/Fsm/Transitions/Readiness.antt =====
-- When `TransitionWhenReady` of pkg/fsm/types/transitions.go lets the machine go on, and what it
-- takes for ready.
use achilles_sdk.Api.{Env, Gvk, History, Object, Try, err, ok}
use achilles_sdk.Fsm.Transitions.{
  Moved, CustomReadyFunc, ReadyOpts, ReadyOption, applicable, custom_ready, make_custom_ready_func,
  sort_by_name, transition_when_ready, when_ready, insert_by_name, unready_fn, ready_opts,
  unready_names,
}
use achilles_sdk.Fsm.Types.Result.{done_result, error_result, is_done, requeue_result}
use achilles_sdk.Meta.{must_typed_object_ref, typed_object_ref_from_object}
use achilles_sdk.Prelude.{
  All, Bool, Bool-cases, List, Option, String, [], append-nil, append_assoc, arith, false,
  if◌then◌else◌, inl, inr, length, length-append, ltb, nat_beq_iff, nat_eq, none, refl, string_eq,
  suc, take, true, zero, ℕ, ◌&&◌, ◌++◌, ◌+◌, ◌==◌, ◌∙◌, ◌∷◌, ◌≡◌, ◌≤◌, ◌⊎◌,
}

-- Some check matches the object's type and finds it ready.
abbrev pub is_accepted : List CustomReadyFunc → Object → Bool
is_accepted [] o = false
is_accepted (f ∷ fs) o =
    let (ready, matched) = f.ready_func o in
    let rest = is_accepted fs o in if ready && matched then true else rest

-- A check that answers ready has matched, as every check of MakeCustomReadyFunc does.
abbrev pub IsTyped : Object → CustomReadyFunc → Type 0
IsTyped o f = (f.ready_func o).0 ≡ true → (f.ready_func o).1 ≡ true

pub make_custom_ready_func-IsTyped :
    (g : Gvk) (ready : Object → Bool) (o : Object) → IsTyped o (make_custom_ready_func g ready)
unfolding make_custom_ready_func
make_custom_ready_func-IsTyped g ready o answer = ground arith

-- Whatever the order of the checks, an object is taken for ready exactly if one of them matches its
-- type and finds it ready, for checks that answer ready only when they match.
pub custom_ready_lem :
    (fs : List CustomReadyFunc) (o : Object)
    → All (IsTyped o) fs
    → custom_ready fs o false ≡ is_accepted fs o
unfolding custom_ready
custom_ready_lem [] o typed = refl
custom_ready_lem (f ∷ fs) o typed = ground (arith, typed.0, custom_ready_lem fs o typed.1)

insert_by_name-length :
    (o : Object) (os : List Object) → length (insert_by_name o os) ≡ suc (length os)
unfolding insert_by_name
insert_by_name-length o [] = refl
insert_by_name-length o (p ∷ ps) = ground (arith, insert_by_name-length o ps)

sort_by_name-length : (os : List Object) → length (sort_by_name os) ≡ length os
unfolding sort_by_name
sort_by_name-length [] = refl
sort_by_name-length (o ∷ os) =
    ground (arith, sort_by_name-length os, insert_by_name-length o (sort_by_name os))

sort_by_name-nil : (os : List Object) → (length (sort_by_name os) == 0) ≡ true → os ≡ []
sort_by_name-nil [] e = refl
sort_by_name-nil (o ∷ os) e =
    absurd
      (ground (arith, sort_by_name-length (o ∷ os), nat_beq_iff (length (sort_by_name (o ∷ os))) 0))

module _ (env : Env) where
  shown_le :
      (names : List String) (text : String)
      → length names ≤ 3
      → length (if ltb (length names) 3 then names ++ text ∷ [] else names) ≤ 3
  shown_le names text few = ground (arith, length-append names (text ∷ []))

  -- The loop that gathers the names of unready objects for the message leaves at most three names,
  -- if it starts with at most three.
  unready_names_le :
      (os : List Object) (names : List String)
      → length names ≤ 3
      → length (unready_names env os names) ≤ 3
  unfolding unready_names typed_object_ref_from_object
  unready_names_le [] names few = few
  unready_names_le (o ∷ os) names few = elim (Bool-cases (env.recognizes o.gvk)) [
    | inl e ↦ rw (e, length) (unready_names_le os _ (shown_le names _ few))
    | inr e ↦ rw (e, length) (unready_names_le os names few)
  ]

  -- The names of the objects whose types the scheme knows.
  abbrev pub ref_names : List Object → List String
  ref_names [] = []
  ref_names (o ∷ os) =
      let rest = ref_names os in
      if env.recognizes o.gvk then env.ref_string (must_typed_object_ref o) ∷ rest else rest

  full : (names : List String) → length names + 0 ≡ 3 → ltb (length names) 3 ≡ false
  full names left = ground arith

  vacant :
      (names : List String) (room : ℕ) → length names + suc room ≡ 3 → ltb (length names) 3 ≡ true
  vacant names room left = ground arith

  take_nil : (room : ℕ) → take {A = String} room [] ≡ []
  take_nil zero = refl
  take_nil (suc room) = refl

  known_step :
      (o : Object) (os : List Object) (names : List String)
      → env.recognizes o.gvk ≡ true
      → unready_names env (o ∷ os) names
        ≡ unready_names env os (
            if ltb (length names) 3
            then names ++ env.ref_string (must_typed_object_ref o) ∷ []
            else names)
  unfolding unready_names typed_object_ref_from_object
  known_step o os names e = ground (arith, e)

  unknown_step :
      (o : Object) (os : List Object) (names : List String)
      → env.recognizes o.gvk ≡ false
      → unready_names env (o ∷ os) names ≡ unready_names env os names
  unfolding unready_names typed_object_ref_from_object
  unknown_step o os names e = ground (arith, e)

  unready_names_lem :
      (os : List Object) (names : List String) (room : ℕ)
      → length names + room ≡ 3
      → unready_names env os names ≡ names ++ take room (ref_names os)
  unfolding unready_names
  unready_names_lem [] names room left = simp (take_nil room, append-nil)
  unready_names_lem (o ∷ os) names zero left = elim (Bool-cases (env.recognizes o.gvk)) [
    | inl e ↦ known_step o os names e ∙ rw (full names left) (unready_names_lem os names zero left)
    | inr e ↦ unknown_step o os names e ∙ unready_names_lem os names zero left
  ]
  unready_names_lem (o ∷ os) names (suc room) left = elim (Bool-cases (env.recognizes o.gvk)) [
    | inl e ↦
        let text = env.ref_string (must_typed_object_ref o) in
        known_step o os names e
        ∙ rw (vacant names room left) (
            unready_names_lem os (names ++ text ∷ []) room
              (omega (arith, left, length-append names (text ∷ [])))
            ∙ append_assoc names (text ∷ []) (take room (ref_names os))
            ∙ rw e)
    | inr e ↦ unknown_step o os names e ∙ unready_names_lem os names (suc room) left ∙ rw e
  ]

  -- The message of a transition that waits names the first three of the unready objects, in their
  -- order, and fewer only where there are fewer, counting those whose types the scheme knows.
  pub first_three :
      (os : List Object)
      → (unready_names env os [] ≡ take 3 (ref_names os)) × (length (unready_names env os []) ≤ 3)
  first_three os = (unready_names_lem os [] 3 (omega arith), unready_names_le os [] (omega arith))

  -- What a transition does with the answer of the check for unready resources.
  abbrev Decided : ReadyOpts → Option ℕ → Object → Try (List Object) → Moved → Type 0
  Decided opts next obj r m =
      (((is_done m.result ≡ true)
          × ((us : List Object) × (r ≡ ok us)
              × (applicable env opts.resources us ≡ [])
              × (m.next ≡ next)))
        ⊎ ((is_done m.result ≡ false) × (m.next ≡ none)))
      × (m.obj ≡ obj)

  when_ready_lem :
      (opts : ReadyOpts) (next : Option ℕ) (obj : Object) (r : Try (List Object))
      → Decided opts next obj r (when_ready env opts next obj r)
  unfolding when_ready is_done done_result error_result requeue_result
  when_ready_lem opts next obj (err e) = (inr (refl, refl), refl)
  when_ready_lem opts next obj (ok us) =
      let resources = sort_by_name (applicable env opts.resources us) in
      elim (Bool-cases (length resources == 0)) [
        | inl e ↦ rw e (
          inl (refl, (us, refl, sort_by_name-nil (applicable env opts.resources us) e, refl)),
          refl,
        )
        | inr e ↦ rw e (inr (refl, refl), refl)
      ]

  -- `TransitionWhenReady` is done only if the check for unready resources succeeded and none that
  -- counts is unready, and then it goes on with the given next state. In every other case, an error
  -- of the check included, there is no next state. It never changes the object.
  pub proceeds_when_ready :
      (is_conditioned : Gvk → Bool) (options : List ReadyOption) (next : Option ℕ) (obj : Object)
      (h : History)
      → let opts = ready_opts options in
        let m = (transition_when_ready env is_conditioned options next obj h).0 in
        (((is_done m.result ≡ true)
            × ((us : List Object) × ((unready_fn env is_conditioned opts obj h).0 ≡ ok us)
                × (applicable env opts.resources us ≡ [])
                × (m.next ≡ next)))
          ⊎ ((is_done m.result ≡ false) × (m.next ≡ none)))
        × (m.obj ≡ obj)
  unfolding transition_when_ready
  proceeds_when_ready is_conditioned options next obj h =
      let opts = ready_opts options in
      when_ready_lem opts next obj (unready_fn env is_conditioned opts obj h).0

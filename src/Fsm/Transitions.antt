-- ===== src/Fsm/Transitions.antt =====
-- pkg/fsm/types/transitions.go: transition functions that the SDK provides. A custom readiness
-- check is made for one type of objects, by its group, version and kind; log lines are left out.
pub mod Deletion
pub mod Readiness
use achilles_sdk.Api.{
  Env, Error, Exec, Gvk, History, Object, Try, TypedObjectRef, attempt, call, delete, err, get,
  lift, ok, pure, raise, ref_gvk, ref_key, wrap, wrapping, ◌>>=◌, ◌>>◌,
}
use achilles_sdk.Api.{same_gvk}
use achilles_sdk.Fsm.Types.Result.{
  Result, done_result, error_result, requeue_result, requeue_result_with_reason_and_backoff,
}
use achilles_sdk.Io.Applicator.{apply_status}
use achilles_sdk.Meta.{new_object_for_gvk, typed_object_ref_from_object}
use achilles_sdk.Sets.ObjectSet.{intersection, list, new_object_set}
use achilles_sdk.Status.{resource_ready}
use achilles_sdk.Prelude.{
  Bool, List, Option, String, [], concat, false, fold, if◌then◌else◌, join, length, less, ltb,
  nat_eq, none, not, some, string_eq, true, ℕ, ◌&&◌, ◌++◌, ◌==◌, ◌||◌, ◌∷◌,
}

-- customResourceReadyFunc: the answer is whether the object is ready and whether it has the type.
pub record CustomReadyFunc : Type 0 where
  pub type : Gvk
  pub ready_func : Object → Bool × Bool

unfoldable pub make_custom_ready_func : Gvk → (Object → Bool) → CustomReadyFunc
make_custom_ready_func g ready = record {
  type = g;
  ready_func = λ o. if same_gvk o.gvk g then (ready o, true) else (false, false);
}

abbrev lease_gvk : Gvk
lease_gvk = record { group = "coordination.k8s.io"; version = "v1"; kind = "Lease" }

abbrev config_map_gvk : Gvk
config_map_gvk = record { group = ""; version = "v1"; kind = "ConfigMap" }

-- The loop over the custom checks: `ready` as the last check left it, or as the first match that
-- is ready.
unfoldable pub custom_ready : List CustomReadyFunc → Object → Bool → Bool
custom_ready [] o ready = ready
custom_ready (f ∷ fs) o ready =
    let (ready', matched) = f.ready_func o in
    let rest = custom_ready fs o ready' in if matched && ready' then true else rest

-- transitionWhenReadyOpts; `none` is the default GetUnreadyResources.
pub record ReadyOpts : Type 0 where
  pub requeue_after : ℕ
  pub resources : List Object
  pub get_unready_resources_fn : Option (Object → Exec (List Object))

-- `10 * time.Second`, in nanoseconds.
abbrev default_ready_opts : ReadyOpts
default_ready_opts = record {
  requeue_after = 10000000000;
  resources = [];
  get_unready_resources_fn = none;
}

-- TransitionWhenReadyOption
abbrev pub ReadyOption : Type 0
ReadyOption = ReadyOpts → ReadyOpts

unfoldable pub with_requeue_after : ℕ → ReadyOption
with_requeue_after d o = record o { requeue_after = d }

unfoldable pub with_resources : List Object → ReadyOption
with_resources resources o = record o { resources = resources }

unfoldable pub with_get_unready_resources_fn : (Object → Exec (List Object)) → ReadyOption
with_get_unready_resources_fn fn o = record o { get_unready_resources_fn = some fn }

unfoldable pub ready_opts : List ReadyOption → ReadyOpts
ready_opts options = fold (λ o f. f o) default_ready_opts options

insert_by_name : Object → List Object → List Object
insert_by_name o [] = o ∷ []
insert_by_name o (p ∷ ps) = if less p.name o.name then p ∷ insert_by_name o ps else o ∷ p ∷ ps

-- sort.SliceStable by the objects' names.
unfoldable pub sort_by_name : List Object → List Object
unfolding insert_by_name
sort_by_name [] = []
sort_by_name (o ∷ os) = insert_by_name o (sort_by_name os)

-- What a transition function leaves: its object, the next state and the result.
pub record Moved : Type 0 where
  pub obj : Object
  pub next : Option ℕ
  pub result : Result

-- What the deletion of the children gathers: their references, and the texts of the first few.
pub record Extant : Type 0 where
  pub refs : List TypedObjectRef
  pub ref_strings : List String

module _ (env : Env) where
  -- The branches on the outcome of `Get` in readManagedResources.
  found_or_missing : Try Object → Exec (List Object)
  found_or_missing (ok o) = pure (o ∷ [])
  found_or_missing (err e) =
      if env.is_not_found e then pure [] else raise (wrap "getting managed resource" e)

  unfoldable pub read_managed_resources : List TypedObjectRef → Exec (List Object)
  unfolding found_or_missing
  read_managed_resources [] = pure []
  read_managed_resources (ref ∷ refs) = do
    wrapping "constructing new" (lift (new_object_for_gvk env (ref_gvk ref)))
    r ← attempt (call env (get (ref_gvk ref) (ref_key ref)))
    found ← found_or_missing r
    rest ← read_managed_resources refs
    pure (found ++ rest)

  -- The switch on the object's type; `is_conditioned` tells for which types api.Conditioned is
  -- implemented.
  unfoldable pub is_unready : (Gvk → Bool) → List CustomReadyFunc → Object → Bool
  is_unready is_conditioned fs o =
      if is_conditioned o.gvk
      then not (resource_ready env o)
      else if same_gvk o.gvk lease_gvk || same_gvk o.gvk config_map_gvk
      then false
      else not (custom_ready fs o false)

  unfoldable pub unready_of : (Gvk → Bool) → List CustomReadyFunc → List Object → List Object
  unready_of is_conditioned fs [] = []
  unready_of is_conditioned fs (o ∷ os) =
      let rest = unready_of is_conditioned fs os in
      if is_unready is_conditioned fs o then o ∷ rest else rest

  unfoldable pub get_unready_resources :
      (Gvk → Bool) → List CustomReadyFunc → Object → Exec (List Object)
  unfolding read_managed_resources unready_of
  get_unready_resources is_conditioned fs obj = do
    managed ← wrapping "reading managed resources" (read_managed_resources obj.managed_resources)
    pure (unready_of is_conditioned fs managed)

  -- The unready resources that count: all of them if none are specified.
  unfoldable pub applicable : List Object → List Object → List Object
  applicable [] unready = unready
  applicable (r ∷ resources) unready =
      list (intersection env (new_object_set env unready) (new_object_set env (r ∷ resources)))

  -- The loop that appends to `unreadyNames`, of which there are three at most.
  unfoldable pub unready_names : List Object → List String → List String
  unready_names [] names = names
  unready_names (o ∷ os) names = elim (typed_object_ref_from_object env o) [
    | err e ↦ unready_names os names
    | ok ref ↦
        unready_names os (if ltb (length names) 3 then names ++ env.ref_string ref ∷ [] else names)
  ]

  waiting_message : List Object → String
  unfolding unready_names
  waiting_message resources = concat (
      "some managed resources are not ready. First three:\n"
      ∷ join (unready_names resources []) ",\n"
      ∷ [])

  -- The transition once it is known what is not ready.
  unfoldable pub when_ready : ReadyOpts → Option ℕ → Object → Try (List Object) → Moved
  unfolding waiting_message applicable
  when_ready opts next obj (err e) = record { obj = obj; next = none; result = error_result e }
  when_ready opts next obj (ok unready) =
      let resources = sort_by_name (applicable opts.resources unready) in
      if length resources == 0
      then record { obj = obj; next = next; result = done_result }
      else record {
        obj = obj;
        next = none;
        result = requeue_result (waiting_message resources) opts.requeue_after;
      }

  unfoldable pub unready_fn : (Gvk → Bool) → ReadyOpts → Object → Exec (List Object)
  unready_fn is_conditioned opts obj = elim opts.get_unready_resources_fn [
    | none ↦ get_unready_resources is_conditioned [] obj
    | some fn ↦ fn obj
  ]

  -- TransitionWhenReady
  unfoldable pub transition_when_ready :
      (Gvk → Bool) → List ReadyOption → Option ℕ → Object → History → Moved × History
  unfolding unready_fn when_ready
  transition_when_ready is_conditioned options next obj h =
      let opts = ready_opts options in
      let (unready, h') = unready_fn is_conditioned opts obj h in
      (when_ready opts next obj unready, h')

  -- `client.IgnoreNotFound(err) != nil` after the deletion of a child. The source's text names the
  -- child's reference, which it dereferences even if there is none; the panic is left out.
  after_delete : Try Object → Exec (Unit {0})
  after_delete (ok o) = pure tt
  after_delete (err e) =
      if env.is_not_found e then pure tt else raise (wrap "deleting managed resource" e)

  -- The variables with one more child: no reference for a type that the scheme does not know.
  unfoldable pub extended : Extant → Try TypedObjectRef → Extant
  extended x (err e) = x
  extended x (ok ref) = record {
    refs = x.refs ++ ref ∷ [];
    ref_strings =
        if ltb (length x.ref_strings) 4
        then x.ref_strings ++ env.ref_string ref ∷ []
        else x.ref_strings;
  }

  -- The loop over the children.
  unfoldable pub delete_each : List Object → Extant → Exec Extant
  unfolding after_delete extended
  delete_each [] x = pure x
  delete_each (child ∷ children) x = do
    r ← attempt (call env (delete child))
    after_delete r
    delete_each children (extended x (typed_object_ref_from_object env child))

  -- The children that the server has, all of them deleted, and their references.
  unfoldable pub delete_managed : List TypedObjectRef → Exec (List Object × Extant)
  unfolding read_managed_resources delete_each
  delete_managed refs = do
    children ← wrapping "reading managed resources" (read_managed_resources refs)
    x ← delete_each children (record { refs = []; ref_strings = [] })
    pure (children, x)

  -- The transition after the status has been updated, or could not be.
  unfoldable pub after_refs : Option ℕ → Object → List Object → Extant → Try (Unit {0}) → Moved
  after_refs next parent children x (err e) = record {
    obj = parent;
    next = none;
    result = error_result (wrap "updating parent status' managed resource refs" e);
  }
  after_refs next parent [] x (ok u) = record { obj = parent; next = next; result = done_result }
  after_refs next parent (child ∷ children) x (ok u) = record {
    obj = parent;
    next = none;
    result =
        requeue_result_with_reason_and_backoff
          (concat (
            "waiting for child resources to be deleted, first three:\n"
            ∷ join x.ref_strings ",\n"
            ∷ []))
          "WaitingForChildDeletion";
  }

  -- The transition after the deletions: the references are set on the parent in memory too.
  unfoldable pub after_deletions :
      Option ℕ → Object → Try (List Object × Extant) → History → Moved × History
  unfolding after_refs
  after_deletions next parent (err e) h =
      (record { obj = parent; next = none; result = error_result e }, h)
  after_deletions next parent (ok (children, x)) h =
      let parent' = record parent { managed_resources = x.refs } in
      let (r, h') = apply_status env parent' [] h in (after_refs next parent' children x r, h')

  -- DeleteChildrenForeground
  unfoldable pub delete_children_foreground : Option ℕ → Object → History → Moved × History
  unfolding delete_managed after_deletions
  delete_children_foreground next parent h =
      let (r, h') = delete_managed parent.managed_resources h in after_deletions next parent r h'

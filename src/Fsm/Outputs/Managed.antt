-- ===== src/Fsm/Outputs/Managed.antt =====
-- The references that `applyManagedResourceRefs` of pkg/fsm/io/outputs.go records.
use achilles_sdk.Api.{
  Env, Error, History, Object, Try, TypedObjectRef, err, get, ok, empty_object, wrap, ref_gvk,
  ref_key,
}
use achilles_sdk.Io.Applicator.{apply_status}
use achilles_sdk.Meta.{must_typed_object_ref}
use achilles_sdk.Sets.ObjectSet.{ObjectSet, key_func, list}
use achilles_sdk.Sets.ObjectSet.Laws.{at_key}
use achilles_sdk.Prelude.{
  Bool, List, String, [], false, if◌then◌else◌, map, none, string_eq, true, ◌++◌, ◌==◌, ◌&&◌, ◌||◌,
  ◌∷◌, ◌≡◌,
}

-- The answer is an object.
abbrev pub is_ok : Try Object → Bool
is_ok (ok o) = true
is_ok (err e) = false

abbrev pub is_read : Env → Try Object → Bool
is_read env (ok o) = true
is_read env (err e) = env.is_not_found e

module _ (env : Env) where
  -- One of the references has the key.
  abbrev pub names_key : List TypedObjectRef → String → Bool
  names_key [] k = false
  names_key (ref ∷ refs) k = key_func env (ref_gvk ref) (ref_key ref) == k || names_key refs k

  -- The new references are those of the applied objects that no kept reference names.
  abbrev pub Complements : ObjectSet → List TypedObjectRef → ObjectSet → Type 0
  Complements applied kept new =
      (k : String) → at_key new k ≡ (if names_key kept k then none else at_key applied k)

  -- The references that the server answers for, when it is asked for them one after the other.
  abbrev pub present : List TypedObjectRef → History → List TypedObjectRef
  present [] h = []
  present (ref ∷ refs) h =
      let q = get (ref_gvk ref) (ref_key ref) in
      let rest = present refs (q ∷ h) in if is_ok (env.respond h q) then ref ∷ rest else rest

  -- The scheme knows every type, and every answer is an object or that there is none.
  abbrev pub readable : List TypedObjectRef → History → Bool
  readable [] h = true
  readable (ref ∷ refs) h =
      let q = get (ref_gvk ref) (ref_key ref) in
      let rest = readable refs (q ∷ h) in
      env.recognizes (ref_gvk ref) && is_read env (env.respond h q) && rest

  abbrev pub asked : List TypedObjectRef → History → History
  asked [] h = h
  asked (ref ∷ refs) h = asked refs (get (ref_gvk ref) (ref_key ref) ∷ h)

  -- What the loop over the references returns, and its history.
  data Kept (old : List TypedObjectRef) (applied : ObjectSet) (refs : List TypedObjectRef)
      (h : History) : Try (ObjectSet × List TypedObjectRef) × History → Type 0 where
    stopped :
        (e : Error) (h' : History) → readable old h ≡ false → Kept old applied refs h (err e, h')
    kept :
        (new : ObjectSet) (refs' : List TypedObjectRef) (h' : History)
        → refs' ≡ refs ++ present old h
        → h' ≡ asked old h
        → Complements applied (present old h) new
        → Kept old applied refs h (ok (new, refs'), h')

  module _ (obj : Object) (applied : ObjectSet) (h : History) where
    -- The object whose status is written.
    abbrev pub status_object : List TypedObjectRef → Object
    status_object refs = record (empty_object obj.gvk) {
      name = obj.name;
      namespace = obj.namespace;
      managed_resources = refs;
    }

    -- An error because a reference could not be read or the status not be written, or the parent with
    -- the references that stay and those of the other applied objects, after these have been written
    -- to its status.
    pub data Recorded : Try Object × History → Type 0 where
      unread :
          (e : Error) (h' : History)
          → readable obj.managed_resources h ≡ false
          → Recorded (err e, h')
      unwritten :
          (new : ObjectSet) (e : Error) (h' : History)
          → Complements applied (present obj.managed_resources h) new
          → apply_status env
              (status_object
                (present obj.managed_resources h ++ map must_typed_object_ref (list new)))
              []
              (asked obj.managed_resources h)
            ≡ (err e, h')
          → Recorded (err (wrap "applying status resourceRefs" e), h')
      recorded :
          (new : ObjectSet) (refs : List TypedObjectRef) (h' : History)
          → refs ≡ present obj.managed_resources h ++ map must_typed_object_ref (list new)
          → Complements applied (present obj.managed_resources h) new
          → apply_status env (status_object refs) [] (asked obj.managed_resources h) ≡ (ok tt, h')
          → Recorded (ok (record obj { managed_resources = refs }), h')

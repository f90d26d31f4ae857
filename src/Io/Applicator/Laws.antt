-- ===== src/Io/Applicator/Laws.antt =====
-- What `Apply` of pkg/io/applicator.go sends, by what the server has.
use achilles_sdk.Api.{
  Fields, unless_error, Try, is_resource_version_missing, wrap, raise, create, err, Error, ok,
  object_key, get, attempt, Request, Env, History, Object, call, lift, patch, pure, update,
  wrapping, ◌>>=◌,
}
use achilles_sdk.Io.Applicator.{
  create_new_object, apply_existing, apply_fetched, no_request_options, apply_opts, ApplyOption,
  apply, without_status, RequestOptions, write, write_difference,
}
use achilles_sdk.Errors.{ignore}
use achilles_sdk.Api.Histories.{then_pure-history}
use achilles_sdk.Prelude.{
  Option, none, some, sym, subst, contains, Bool-cases, List, arith, eq_iff, false, if◌then◌else◌,
  inl, inr, not, refl, string_eq, true, ◌==◌, ◌∷◌, ◌≡◌, ◌≢◌, ◌⊎◌,
}

-- The request that reads an object.
abbrev pub get_of : Object → Request
get_of o = get o.gvk (object_key o)

module _ (env : Env) where
  -- The objects that an update and a patch carry: an update has the server's resource version unless
  -- the caller gave one, a patch has none unless the options ask for the optimistic lock.
  abbrev pub sent_update : Object → Object → Object
  sent_update current desired =
      if desired.resource_version == ""
      then record desired { resource_version = current.resource_version }
      else desired

  abbrev pub sent_patch : RequestOptions → Object → Object
  sent_patch ro desired =
      if not ro.enforce_optimistic_lock then record desired { resource_version = "" } else desired

  -- What `Apply` compares: all fields, or all but the status where that is a subresource.
  abbrev pub compared_fields : Object → Fields → Fields
  compared_fields current fields =
      if contains current.managed_fields "status"
      then env.remove_nested_field fields "status"
      else fields

  -- What becomes of an object that the server has, with the options' error, the request's options
  -- and the object after them, the outcome and the history.
  pub data Written (e : Option Error) (ro : RequestOptions) (current desired : Object) (h : History)
      : Try Object × History → Type 0 where
    refused :
        (f : Error)
        → e ≡ some f
        → Written e ro current desired h (err (wrap "applying options" f), h)
    unconverted :
        (f g : Error)
        → (env.to_unstructured current ≡ err f) ⊎ (env.to_unstructured desired ≡ err f)
        → Written e ro current desired h (err g, h)
    settled :
        (before after : Fields)
        → e ≡ none
        → env.to_unstructured current ≡ ok before
        → env.to_unstructured desired ≡ ok after
        → env.deep_equal (compared_fields current before) (compared_fields current after) ≡ true
        → Written e ro current desired h (ok current, h)
    written :
        (before after : Fields) (result : Try Object)
        → e ≡ none
        → env.to_unstructured current ≡ ok before
        → env.to_unstructured desired ≡ ok after
        → env.deep_equal (compared_fields current before) (compared_fields current after) ≡ false
        → Written e ro current desired h (
          result,
          (if ro.update
                then update (sent_update current desired)
                else patch (sent_patch ro desired))
              ∷ h,
        )

  write-history :
      (ro : RequestOptions) (c d : Object) (h : History)
      → (write env ro c d h).1
        ≡ (if ro.update then update (sent_update c d) else patch (sent_patch ro d)) ∷ h
  unfolding write call wrapping
  write-history ro c d h = elim (Bool-cases ro.update) [
    | inl e ↦ rw e (
        then_pure-history (wrapping "cannot update object" (call env (update (sent_update c d)))) c
          h)
    | inr e ↦ rw e refl
  ]

  write_difference-Written :
      (ro : RequestOptions) (c d : Object) (h : History) (before after : Try Fields)
      → env.to_unstructured c ≡ before
      → env.to_unstructured d ≡ after
      → Written none ro c d h (write_difference env ro c d h)
  unfolding write_difference lift pure wrapping ◌>>=◌ without_status
  write_difference-Written ro c d h (err e) after read made = rw read (unconverted e _ (inl read))
  write_difference-Written ro c d h (ok before) (err e) read made =
      rw read (rw made (unconverted e _ (inr made)))
  write_difference-Written ro c d h (ok before) (ok after) read made =
      elim (Bool-cases (env.deep_equal (compared_fields c before) (compared_fields c after))) [
        | inl same ↦ rw read (rw made (rw same (settled before after refl read made same)))
        | inr other ↦ rw read (
            rw made (
              rw other (
                subst (λ g. Written none ro c d h ((write env ro c d h).0, g))
                  (sym (write-history ro c d h))
                  (written before after (write env ro c d h).0 refl read made other))))
      ]

  -- An object with a name is read first.
  pub apply_named :
      (o : Object) (opts : List ApplyOption) (h : History)
      → o.name ≢ ""
      → apply env o opts h ≡ apply_fetched env o opts (env.respond h (get_of o)) (get_of o ∷ h)
  unfolding apply attempt call ◌>>=◌
  apply_named o opts h named = ground (arith, eq_iff o.name "")

  found :
      (o f : Object) (opts : List ApplyOption) (h : History)
      → let (o', ro, e) = apply_opts o no_request_options opts in
        Written e ro f o' h (apply_fetched env o opts (ok f) h)
  unfolding apply_fetched apply_existing
  found o f opts h = let (o', ro, e) = apply_opts o no_request_options opts in after_options o' ro e
    where
      after_options :
          (o' : Object) (ro : RequestOptions) (e : Option Error)
          → Written e ro f o' h
              (unless_error e (λ e'. wrap "applying options" e') (write_difference env ro f o') h)
      after_options o' ro none =
          unfold unless_error in
          write_difference-Written ro f o' h (env.to_unstructured f) (env.to_unstructured o') refl
            refl
      after_options o' ro (some e) = unfold unless_error raise in refused e refl

  -- What becomes of an object that the server does not have: an error of the options, other than
  -- that the resource version is missing, is returned, and otherwise the object is created.
  pub data Created (e : Option Error) (desired : Object) (h : History)
      : Try Object × History → Type 0 where
    not_created :
        (f : Error)
        → e ≡ some f
        → is_resource_version_missing f ≡ false
        → Created e desired h (err f, h)
    created :
        (result : Try Object)
        → (e ≡ none) ⊎ ((f : Error) × (e ≡ some f) × (is_resource_version_missing f ≡ true))
        → Created e desired h (result, create desired ∷ h)

  create_new_object-Created :
      (o : Object) (opts : List ApplyOption) (h : History)
      → let (o', _, e) = apply_opts o no_request_options opts in
        Created e o' h (create_new_object env o no_request_options opts h)
  unfolding create_new_object ignore unless_error wrapping call raise
  create_new_object-Created o opts h =
      let (o', ro, e) = apply_opts o no_request_options opts in after_options o' e
    where
      after_options :
          (o' : Object) (e : Option Error)
          → Created e o' h (
              unless_error
                (ignore is_resource_version_missing e)
                (λ e'. e')
                (wrapping "cannot create object" (call env (create o')))
                h)
      after_options o' none = created _ (inl refl)
      after_options o' (some f) = elim (Bool-cases (is_resource_version_missing f)) [
        | inl missing ↦ rw missing (created _ (inr (f, refl, missing)))
        | inr other ↦ rw other (not_created f refl other)
      ]

  absent :
      (o : Object) (e : Error) (opts : List ApplyOption) (h : History)
      → env.is_not_found e ≡ true
      → let (o', _, failed) = apply_opts o no_request_options opts in
        Created failed o' h (apply_fetched env o opts (err e) h)
  unfolding apply_fetched
  absent o e opts h nf = rw nf (create_new_object-Created o opts h)

  failed :
      (o : Object) (e : Error) (opts : List ApplyOption) (h : History)
      → env.is_not_found e ≡ false
      → apply_fetched env o opts (err e) h ≡ (err (wrap "cannot get object" e), h)
  unfolding apply_fetched raise
  failed o e opts h nf = rw nf

  -- What `Apply` does by the server's answer to its first request, with the options' error and what
  -- they made of the object and of the request's options.
  abbrev pub Answered :
      Try Object → Object → RequestOptions → Option Error → History → Try Object × History → Type 0
  Answered answer o' ro e h x =
      ((f : Object) × (answer ≡ ok f) × Written e ro f o' h x)
      ⊎ ((f : Error) × (answer ≡ err f) × (env.is_not_found f ≡ true) × Created e o' h x)
      ⊎ ((f : Error) × (answer ≡ err f)
          × (env.is_not_found f ≡ false)
          × (x ≡ (err (wrap "cannot get object" f), h)))

  answered :
      (o : Object) (opts : List ApplyOption) (h : History) (answer : Try Object)
      → let (o', ro, e) = apply_opts o no_request_options opts in
        Answered answer o' ro e h (apply_fetched env o opts answer h)
  answered o opts h (ok f) = inl (f, refl, found o f opts h)
  answered o opts h (err e) = elim (Bool-cases (env.is_not_found e)) [
    | inl nf ↦ inr (inl (e, refl, nf, absent o e opts h nf))
    | inr nf ↦ inr (inr (e, refl, nf, failed o e opts h nf))
  ]

  -- `Apply` of a named object reads it and makes at most one write. If the server has the object,
  -- an error of the options or of a conversion is returned and nothing written; nothing is written
  -- either if the fields do not differ, but for the status where that is a subresource; otherwise
  -- it is updated or patched, as the options say. An update carries the server's resource version
  -- unless the object brought one, and a patch carries none unless the options ask for the
  -- optimistic lock, whichever version the object had. If the server says that there is no such
  -- object, it is created with the options applied, unless these failed for another reason than a
  -- missing resource version. On any other error nothing is written and the error is returned.
  pub apply_outcomes :
      (o : Object) (opts : List ApplyOption) (h : History)
      → o.name ≢ ""
      → let (o', ro, e) = apply_opts o no_request_options opts in
        Answered (env.respond h (get_of o)) o' ro e (get_of o ∷ h) (apply env o opts h)
  apply_outcomes o opts h named =
      rw (apply_named o opts h named) (answered o opts (get_of o ∷ h) (env.respond h (get_of o)))

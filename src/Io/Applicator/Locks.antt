-- ===== src/Io/Applicator/Locks.antt =====
-- The optimistic lock of pkg/io/options.go on an object that is yet to be created.
use achilles_sdk.Api.{
  Env, Error, History, Object, call, create, err, is_resource_version_missing, unless_error,
  wrapping,
}
use achilles_sdk.Io.Applicator.{ApplyOption, apply, apply_fetched, create_new_object}
use achilles_sdk.Io.Applicator.Laws.{apply_named, get_of}
use achilles_sdk.Io.Options.{with_optimistic_lock}
use achilles_sdk.Prelude.{List, refl, string_eq, true, ◌∷◌, ◌≡◌, ◌≢◌}

module _ (env : Env) where
  -- The optimistic lock as the first option of a new object: with no resource version on the object
  -- it fails, `Apply` ignores that failure and creates the object as it was passed, so the options
  -- after the lock never run, whatever they are.
  pub locked_create_skips_options :
      (o : Object) (opts : List ApplyOption) (e : Error) (h : History)
      → o.name ≢ ""
      → o.resource_version ≡ ""
      → env.respond h (get_of o) ≡ err e
      → env.is_not_found e ≡ true
      → (apply env o (with_optimistic_lock ∷ opts) h).1 ≡ create o ∷ get_of o ∷ h
  unfolding apply_fetched create_new_object with_optimistic_lock unless_error
      is_resource_version_missing wrapping call
  locked_create_skips_options o opts e h named rv p nf =
      rw (apply_named env o (with_optimistic_lock ∷ opts) h named) (rw (p, nf, rv) refl)

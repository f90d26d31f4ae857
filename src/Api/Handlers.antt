-- ===== src/Api/Handlers.antt =====
-- Handlers: a function of the history that returns a value or an error, and the longer history. What
-- was done before an error stays done. `do` blocks stop at the first error, as the source's
-- `if err != nil { return err }` does; `attempt` hands the error to the code instead.
use achilles_sdk.Api.Environment.{Env, History, Request}
use achilles_sdk.Api.Objects.{Error, Object, Try, err, ok, wrap}
use achilles_sdk.Prelude.{Option, String, none, some, ℕ, ◌∷◌}

abbrev pub Exec {ℓ} : Type ℓ → Type ℓ
Exec A = History → Try A × History

module _ {ℓ} {A : Type ℓ} where
  unfoldable pub pure : A → Exec A
  pure a h = (ok a, h)

  unfoldable pub raise : Error → Exec A
  raise e h = (err e, h)

  -- A call's outcome as a value.
  unfoldable pub attempt : Exec A → Exec (Try A)
  attempt m h = let (r, h') = m h in (ok r, h')

  wrapped : String → Try A → Try A
  wrapped text (ok a) = ok a
  wrapped text (err e) = err (wrap text e)

  -- `if err != nil { return fmt.Errorf("text: %w", err) }`
  unfoldable pub wrapping : String → Exec A → Exec A
  unfolding wrapped
  wrapping text m h = let (r, h') = m h in (wrapped text r, h')

  -- `if e != nil { return f(e) }`, and on with `m`.
  unfoldable pub unless_error : Option Error → (Error → Error) → Exec A → Exec A
  unfolding raise
  unless_error none f m = m
  unless_error (some e) f m = raise (f e)

  unfoldable pub lift : Try A → Exec A
  lift r h = (r, h)

module _ {ℓ κ} {A : Type ℓ} {B : Type κ} where
  abbrev pub continue : Try A → (A → Exec B) → Exec B
  continue (ok a) f h = f a h
  continue (err e) f h = (err e, h)

  infixl 5 ◌>>=◌ ◌>>◌
  unfoldable pub ◌>>=◌ : Exec A → (A → Exec B) → Exec B
  ◌>>=◌ m f h = let (r, h') = m h in continue r f h'

  abbrev pub ◌>>◌ : Exec A → Exec B → Exec B
  m >> k = m >>= λ _. k

-- One request to the API server.
unfoldable pub call : Env → Request → Exec Object
call env q h = (env.respond h q, q ∷ h)

-- An effect that has no answer.
unfoldable pub emit : Request → Exec (Unit {0})
emit q h = (ok tt, q ∷ h)

unfoldable pub clock : Env → Exec ℕ
clock env h = (ok (env.now h), h)

-- ===== src/Api/Histories.antt =====
-- What a handler's history is after it, along a `do` block.
use achilles_sdk.Api.Environment.{History}
use achilles_sdk.Api.Handlers.{Exec, ◌>>=◌, ◌>>◌, continue, lift, pure, unless_error, wrapping}
use achilles_sdk.Api.Objects.{Error, Try, err, ok}
use achilles_sdk.Prelude.{Option, String, none, refl, some, ◌≡◌}

module _ {ℓ κ} {A : Type ℓ} {B : Type κ} where
  -- Returning a value after `m` has the history of `m`.
  pub then_pure-history : (m : Exec A) (b : B) (h : History) → ((m >> pure b) h).1 ≡ (m h).1
  unfolding ◌>>=◌ pure
  then_pure-history m b h = let (r, h') = m h in go r h'
    where
      go : (r : Try A) (h : History) → (continue r (λ _. pure b) h).1 ≡ h
      go (ok a) h = refl
      go (err e) h = refl

  -- A step with no effect either fails, and the history stays, or the rest runs from there.
  pub bind_lift-history {μ} :
      (Q : History → Type μ) (text : String) (r : Try A) (f : A → Exec B) (h : History)
      → Q h
      → ((a : A) → Q (f a h).1)
      → Q ((wrapping text (lift r) >>= f) h).1
  unfolding ◌>>=◌ lift wrapping
  bind_lift-history Q text (ok a) f h q k = k a
  bind_lift-history Q text (err e) f h q k = q

module _ {ℓ} {A : Type ℓ} where
  pub unless_error-history {μ} :
      (Q : History → Type μ) (o : Option Error) (f : Error → Error) (m : Exec A) (h : History)
      → Q h
      → Q (m h).1
      → Q (unless_error o f m h).1
  unfolding unless_error
  unless_error-history Q none f m h q k = k
  unless_error-history Q (some e) f m h q k = q

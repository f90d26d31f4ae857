-- ===== src/Api/Answers.antt =====
-- What a handler returns when it returns a value: `Returns Q m` says that the value satisfies `Q`,
-- whatever the API server answers. One rule for each way to build a handler that ends in a value.
use achilles_sdk.Api.Environment.{History}
use achilles_sdk.Api.Handlers.{Exec, ◌>>=◌, continue, pure, wrapping}
use achilles_sdk.Api.Objects.{Try, err, ok}
use achilles_sdk.Prelude.{String}

module _ {ℓ} {A : Type ℓ} (Q : A → Type 0) where
  abbrev pub Holds : Try A → Type 0
  Holds (ok a) = Q a
  Holds (err e) = Unit

  pub record Returns (m : Exec A) : Type ℓ where
    pub at : (h : History) → Holds (m h).0

  pub Returns-pure : (a : A) → Q a → Returns (pure a)
  unfolding pure
  Returns-pure a q = record { at = λ h. q }

  pub Returns-wrapping : (text : String) (m : Exec A) → Returns m → Returns (wrapping text m)
  unfolding wrapping
  Returns-wrapping text m k = record { at = λ h. go (m h) (k.at h) }
    where
      go : (x : Try A × History) → Holds x.0 → Holds (wrapping text (λ _. x) x.1).0
      go (ok a, h) q = q
      go (err e, h) q = tt

  pub Returns-bind {κ} :
      {B : Type κ} (m : Exec B) (f : B → Exec A) → ((b : B) → Returns (f b)) → Returns (m >>= f)
  unfolding ◌>>=◌
  Returns-bind {B} m f kf = record { at = λ h. go (m h) }
    where
      go : (x : Try B × History) → Holds (continue x.0 f x.1).0
      go (ok b, h) = (kf b).at h
      go (err e, h) = tt

-- ===== src/Api/Effects.antt =====
-- Which effects a handler may have: `Emits P m` says that `m` adds to a history only effects that
-- satisfy `P`, whatever the API server answers. One rule for each way to build a handler.
use achilles_sdk.Api.Environment.{Env, History, Request}
use achilles_sdk.Api.Handlers.{
  unless_error, Exec, ◌>>=◌, attempt, call, clock, continue, emit, lift, pure, raise, wrapping,
}
use achilles_sdk.Api.Objects.{Error, Try, err, ok}
use achilles_sdk.Prelude.{
  All, All-append, Bool, List, Option, String, [], ap, append_assoc, false, if◌then◌else◌, none,
  refl, some, sym, true, ◌++◌, ◌∙◌, ◌∷◌, ◌≡◌,
}

pub record Emits {ℓ} {A : Type ℓ} (P : Request → Type 0) (m : Exec A) : Type ℓ where
  pub at : (h : History) → (added : List Request) × ((m h).1 ≡ added ++ h) × All P added

module _ {ℓ} {A : Type ℓ} {P : Request → Type 0} where
  pub Emits-pure : (a : A) → Emits P (pure a)
  unfolding pure
  Emits-pure a = record { at = λ h. ([], refl, tt) }

  pub Emits-raise : (e : Error) → Emits P (raise {A = A} e)
  unfolding raise
  Emits-raise e = record { at = λ h. ([], refl, tt) }

  pub Emits-lift : (r : Try A) → Emits P (lift r)
  unfolding lift
  Emits-lift r = record { at = λ h. ([], refl, tt) }

  pub Emits-attempt : (m : Exec A) → Emits P m → Emits P (attempt m)
  unfolding attempt
  Emits-attempt m k = record { at = k.at }

  pub Emits-wrapping : (text : String) (m : Exec A) → Emits P m → Emits P (wrapping text m)
  unfolding wrapping
  Emits-wrapping text m k = record { at = k.at }

  pub Emits-if :
      (b : Bool) (m n : Exec A)
      → (b ≡ true → Emits P m)
      → (b ≡ false → Emits P n)
      → Emits P (if b then m else n)
  Emits-if true m n km kn = km refl
  Emits-if false m n km kn = kn refl

  pub Emits-unless_error :
      (o : Option Error) (f : Error → Error) (m : Exec A) → Emits P m → Emits P (unless_error o f m)
  unfolding unless_error
  Emits-unless_error none f m k = k
  Emits-unless_error (some e) f m k = Emits-raise (f e)

module _ {P : Request → Type 0} where
  pub Emits-call : (env : Env) (q : Request) → P q → Emits P (call env q)
  unfolding call
  Emits-call env q p = record { at = λ h. (q ∷ [], refl, (p, tt)) }

  pub Emits-emit : (q : Request) → P q → Emits P (emit q)
  unfolding emit
  Emits-emit q p = record { at = λ h. (q ∷ [], refl, (p, tt)) }

  pub Emits-clock : (env : Env) → Emits P (clock env)
  unfolding clock
  Emits-clock env = record { at = λ h. ([], refl, tt) }

  -- The effects of the rest come on top of those of the first step.
  pub then_added :
      {h h' h'' : History}
      → ((added : List Request) × (h' ≡ added ++ h) × All P added)
      → ((added : List Request) × (h'' ≡ added ++ h') × All P added)
      → (added : List Request) × (h'' ≡ added ++ h) × All P added
  then_added {h} (first, e, p) (second, f, q) = (
    second ++ first,
    f ∙ ap (λ t. second ++ t) e ∙ sym (append_assoc second first h),
    All-append P second first q p,
  )

module _ {ℓ κ} {A : Type ℓ} {B : Type κ} {P : Request → Type 0} where
  pub Emits-continue :
      (r : Try A) (f : A → Exec B) → ((a : A) → Emits P (f a)) → Emits P (continue r f)
  Emits-continue (ok a) f kf = record { at = (kf a).at }
  Emits-continue (err e) f kf = record { at = λ h. ([], refl, tt) }

  pub Emits-bind :
      (m : Exec A) (f : A → Exec B) → Emits P m → ((a : A) → Emits P (f a)) → Emits P (m >>= f)
  unfolding ◌>>=◌
  Emits-bind m f km kf = record {
    at = λ h. let (r, h') = m h in then_added (km.at h) ((Emits-continue r f kf).at h');
  }

pub ruleset emits_rules = (
  Emits-pure, Emits-raise, Emits-lift, Emits-attempt, Emits-wrapping, Emits-if, Emits-unless_error,
  Emits-call, Emits-emit, Emits-clock, Emits-bind,
)

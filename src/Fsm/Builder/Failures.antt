-- ===== src/Fsm/Builder/Failures.antt =====
-- Why the function that Build returns fails.
use achilles_sdk.Api.{Env, Error, Gvk, Object, ok, wrap}
use achilles_sdk.Fsm.Builder.{Builder, Call, owned_calls}
use achilles_sdk.Fsm.Builder.Methods.{manages, new_builder}
use achilles_sdk.Fsm.Builder.Build.{
  Built, after_build, after_owned, build, later_calls, first_calls,
}
use achilles_sdk.Fsm.Builder.Laws.{manages-registered, owned_calls-registered}
use achilles_sdk.Fsm.Metrics.BTree.{BTree}
use achilles_sdk.Fsm.Metrics.Prometheus.{MetricVecs}
use achilles_sdk.Fsm.Metrics.StartTimes.{before}
use achilles_sdk.Fsm.Metrics.Recorder.{Metrics}
use achilles_sdk.Prelude.{
  List, Option, ap, arith, inl, inr, nat_eq, none, refl, some, string_eq, ℕ, ◌++◌, ◌∙◌, ◌≡◌, ◌⊎◌,
}

module _ {X : Type 0} (env : Env) (p : MetricVecs) (t : BTree before)
    (answer : List (Call X) → Option Error) (b : Builder X) (metrics : Metrics env p t) where
  -- No error, or the one of controller-runtime, and then nothing else was done.
  abbrev pub FailsWithController : Built X env p t → Type 0
  FailsWithController built =
      (built.error ≡ none)
      ⊎ ((e : Error) × (built.error ≡ some (wrap "initializing controller" e))
          × (built.metrics ≡ metrics))

  built_error :
      (calls : List (Call X)) (o : Option Error)
      → FailsWithController (after_build env p t b calls metrics o)
  unfolding after_build
  built_error calls none = inl refl
  built_error calls (some e) = inr (e, refl, refl)

  owned_error :
      (owned : List (Call X)) (failed : Option Error)
      → failed ≡ none
      → FailsWithController (after_owned env p t answer b owned metrics failed)
  unfolding after_owned
  owned_error owned none e =
      built_error (first_calls b ++ owned ++ later_calls b)
        (answer (first_calls b ++ owned ++ later_calls b))
  owned_error owned (some f) e = ground arith

  -- Build of a builder whose managed types are those that Manages has added, whatever else it was
  -- told, fails only if controller-runtime does, and then the metrics are as they were.
  pub build_error_lem :
      (obj : Object) (state : Option ℕ) (gvks : List Gvk) (c : Builder X)
      → manages env gvks (new_builder obj state) ≡ ok c
      → b.managed_types ≡ c.managed_types
      → FailsWithController (build env p t answer b metrics)
  unfolding build new_builder
  build_error_lem obj state gvks c e same =
      owned_error (owned_calls env b.managed_types).0 (owned_calls env b.managed_types).1 (
        ap (λ types. (owned_calls env types).1) same
        ∙ owned_calls-registered env c.managed_types
            (manages-registered env gvks (new_builder obj state) c tt e))

-- ===== src/Fsm/Builder/Laws.antt =====
-- pkg/fsm/builder.go: Manages, and the loop of Build over the managed types.
use achilles_sdk.Api.{Env, Gvk, Try, gvk_eq, err, ok}
use achilles_sdk.Meta.{new_object_for_gvk}
use achilles_sdk.Fsm.Builder.{Builder, ManagedType, owned_call, owned_calls}
use achilles_sdk.Fsm.Builder.Methods.{manages}
use achilles_sdk.Prelude.{
  All, All-append, Bool-cases, List, [], arith, inl, inr, nat_eq, none, refl, string_eq, subst,
  true, ◌++◌, ◌∷◌, ◌≡◌,
}

module _ {X : Type 0} where
  -- A loop over types that are registered ends without an error.
  pub owned_calls-registered :
      (env : Env) (types : List (ManagedType X))
      → All (λ t. env.recognizes t.gvk ≡ true) types
      → (owned_calls env types).1 ≡ none
  unfolding owned_calls owned_call new_object_for_gvk
  owned_calls-registered env [] all = refl
  owned_calls-registered env (t ∷ types) (first, all) =
      ground (arith, first, owned_calls-registered env types all)

  pub manages-registered :
      (env : Env) (gvks : List Gvk) (b c : Builder X)
      → All (λ t. env.recognizes t.gvk ≡ true) b.managed_types
      → manages env gvks b ≡ ok c
      → All (λ t. env.recognizes t.gvk ≡ true) c.managed_types
  unfolding manages
  manages-registered env [] b c all e = subst registered e all
    where
      registered : Try (Builder X) → Type 0
      registered (ok b) = All (λ t. env.recognizes t.gvk ≡ true) b.managed_types
      registered (err e) = Unit
  manages-registered env (gvk ∷ gvks) b c all e = elim (Bool-cases (env.recognizes gvk)) [
    | inl r ↦
        manages-registered env gvks
          (record b {
            managed_types = b.managed_types ++ record { gvk = gvk; predicates = [] } ∷ [];
          })
          c
          (All-append (λ t. env.recognizes t.gvk ≡ true) b.managed_types
            (record { gvk = gvk; predicates = [] } ∷ []) all (r, tt))
          (ground (arith, r, e))
    | inr r ↦ ground (arith, r, e)
  ]

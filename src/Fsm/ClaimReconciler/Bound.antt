-- ===== src/Fsm/ClaimReconciler/Bound.antt =====
-- What a claim's reconciliation reads, and a claim whose object is another's
-- (pkg/fsm/internal/reconciler_claim.go).
use achilles_sdk.Api.{
  Env, Error, History, Object, ObjectKey, Request, Try, TypedObjectRef, attempt, call,
  create_dry_run, empty_object, err, get, ok, plain, pure, raise, ref_key, wrap, wrapping, ◌>>=◌,
}
use achilles_sdk.Fsm.ClaimReconciler.{
  ClaimReconciler, claim_fetched, fetch_claimed, is_claimed_by_other, reconcile_claim, same_ref,
  with_claimed,
}
use achilles_sdk.Meta.{must_typed_object_ref}
use achilles_sdk.Prelude.{
  Bool-cases, Option-cases, [], arith, concat, eq_iff, false, inl, inr, none, refl, some, string_eq,
  true, ◌∙◌, ◌∷◌, ◌↔◌, ◌≡◌, ◌≢◌, ◌⊎◌,
}

same_ref_iff : (a b : TypedObjectRef) → (same_ref a b ≡ true) ↔ (a ≡ b)
unfolding same_ref
same_ref_iff a b = ground (
  arith,
  eq_iff a.group b.group,
  eq_iff a.version b.version,
  eq_iff a.kind b.kind,
  eq_iff a.name b.name,
  eq_iff a.namespace b.namespace,
)

-- The object refers to a claim, and not to this one.
abbrev pub IsForeign : Object → Object → Type 0
IsForeign claim claimed =
    (other : TypedObjectRef) × (claimed.claim_ref ≡ some other)
    × (other ≢ must_typed_object_ref claim)

pub IsForeign-claimed :
    (claim claimed : Object) → is_claimed_by_other claim claimed ≡ true → IsForeign claim claimed
unfolding is_claimed_by_other
IsForeign-claimed claim claimed e = elim (Option-cases claimed.claim_ref) [
  | inl none_yet ↦ ground (arith, e, none_yet)
  | inr (other, p) ↦ (
    other,
    p,
    λ same. ground (arith, e, p, (same_ref_iff other (must_typed_object_ref claim)).1 same),
  )
]

claimed_foreign :
    (claim claimed : Object) → IsForeign claim claimed → is_claimed_by_other claim claimed ≡ true
unfolding is_claimed_by_other
claimed_foreign claim claimed (other, p, differs) =
    elim (Bool-cases (same_ref other (must_typed_object_ref claim))) [
      | inl same ↦ absurd (differs ((same_ref_iff other (must_typed_object_ref claim)).0 same))
      | inr e ↦ ground (arith, p, e)
    ]

module _ (env : Env) (r : ClaimReconciler) (req : ObjectKey) (claim : Object) (h : History) where
  -- The request for the claimed object, or for a name for it.
  abbrev pub ask : Request
  ask = elim claim.claimed_ref [
    | none ↦
        create_dry_run
          (record (empty_object r.claimed_gvk) { generate_name = concat (claim.name ∷ "-" ∷ []) })
    | some ref ↦ get r.claimed_gvk (ref_key ref)
  ]

  abbrev pub answer : Try Object
  answer = env.respond (get r.claim_gvk req ∷ h) ask

  -- The history after both objects have been read.
  abbrev pub read_both : History
  read_both = ask ∷ get r.claim_gvk req ∷ h

  module _ (found : env.respond h (get r.claim_gvk req) ≡ ok claim) where
    -- `Reconcile` reads the claim and asks for the claimed object.
    pub asked_lem :
        reconcile_claim env r req h
        ≡ (fetch_claimed env r claim >>= with_claimed env r claim) (get r.claim_gvk req ∷ h)
    unfolding reconcile_claim claim_fetched attempt call ◌>>=◌
    asked_lem = rw found refl

    pub fetched_ok :
        (o : Object)
        → answer ≡ ok o
        → fetch_claimed env r claim (get r.claim_gvk req ∷ h) ≡ (ok o, read_both)
    unfolding fetch_claimed attempt call ◌>>=◌ pure wrapping
    fetched_ok o answered = elim (Option-cases claim.claimed_ref) [
      | inl free ↦ rw free (rw (rw free at answered) refl)
      | inr (ref, bound) ↦ rw bound (rw (rw bound at answered) refl)
    ]

    pub fetched_absent :
        (ref : TypedObjectRef) (e : Error)
        → claim.claimed_ref ≡ some ref
        → answer ≡ err e
        → env.is_not_found e ≡ true
        → fetch_claimed env r claim (get r.claim_gvk req ∷ h)
          ≡ (ok (record (empty_object r.claimed_gvk) { name = ref.name }), read_both)
    unfolding fetch_claimed attempt call ◌>>=◌ pure
    fetched_absent ref e bound answered nf = rw bound (rw (rw bound at answered) (rw nf refl))

    pub fetched_err :
        (e : Error)
        → answer ≡ err e
        → (env.is_not_found e ≡ false) ⊎ (claim.claimed_ref ≡ none)
        → (f : Error) × (fetch_claimed env r claim (get r.claim_gvk req ∷ h) ≡ (err f, read_both))
    unfolding fetch_claimed attempt call ◌>>=◌ raise wrapping
    fetched_err e answered other = elim (Option-cases claim.claimed_ref) [
      | inl free ↦
          (wrap "generating a unique resource name" e, rw free (rw (rw free at answered) refl))
      | inr (ref, bound) ↦ (
        wrap "fetching claimed" e,
        rw bound (rw (rw bound at answered) (ground (arith, other, bound))),
      )
    ]

    pub after_fetch :
        (o : Object)
        → fetch_claimed env r claim (get r.claim_gvk req ∷ h) ≡ (ok o, read_both)
        → reconcile_claim env r req h ≡ with_claimed env r claim o read_both
    unfolding ◌>>=◌
    after_fetch o e = asked_lem ∙ rw e refl

    pub after_failure :
        (f : Error)
        → fetch_claimed env r claim (get r.claim_gvk req ∷ h) ≡ (err f, read_both)
        → reconcile_claim env r req h ≡ (err f, read_both)
    unfolding ◌>>=◌
    after_failure f e = asked_lem ∙ rw e refl

    -- A claimed object that refers to another claim is left alone, whether or not the claim is being
    -- deleted or suspended: if the server has both, `Reconcile` reads them, does nothing else and
    -- returns an error. References are other if they differ in any of their five fields.
    pub foreign_claim_is_left_alone :
        (claimed : Object)
        → answer ≡ ok claimed
        → IsForeign claim claimed
        → reconcile_claim env r req h ≡ (err (plain "claimed not owned by claim"), read_both)
    unfolding with_claimed raise
    foreign_claim_is_left_alone claimed answered other =
        after_fetch claimed (fetched_ok claimed answered)
        ∙ rw (claimed_foreign claim claimed other) refl

-- ===== src/Fsm/Types/OutputSet/Laws.antt =====
-- What a transition function's calls on its output set (pkg/fsm/types/output.go) leave in it.
use achilles_sdk.GoMap
use achilles_sdk.GoMap.Laws.{lookup-delete, lookup-insert}
use achilles_sdk.Api.{Env, Object, TypedObjectRef}
use achilles_sdk.Sets.ObjectSet
use achilles_sdk.Sets.ObjectSet.Laws.{
  at_key, at_key-delete_one, at_key-insert_one, delete-IsValid, insert-IsValid, new-IsValid,
}
use achilles_sdk.Sets.ObjectSet.{ObjectSet, key_of}
use achilles_sdk.Fsm.Types.OutputSet.{
  OutputSet, apply, apply_all, delete, delete_all, delete_by_ref, new_output_set, options_of,
  partial_object,
}
use achilles_sdk.Prelude.{
  List, String, [], ap, arith, eq_refl, if◌then◌else◌, none, refl, some, string_eq, true, ◌==◌, ◌∙◌,
  ◌∷◌, ◌≡◌, ◌≢◌,
}

-- The calls that a transition function makes on its output set.
pub data Call (ApplyOption : Type 0) : Type 0 where
  apply_call : Object → List ApplyOption → Call ApplyOption
  apply_all_call : List Object → Call ApplyOption
  delete_call : Object → Call ApplyOption
  delete_all_call : List Object → Call ApplyOption
  delete_by_ref_call : TypedObjectRef → Call ApplyOption

module _ (env : Env) {ApplyOption : Type 0} where
  unfoldable pub step : OutputSet ApplyOption → Call ApplyOption → OutputSet ApplyOption
  step s (apply_call o opts) = apply env s o opts
  step s (apply_all_call os) = apply_all env s os
  step s (delete_call o) = delete env s o
  step s (delete_all_call os) = delete_all env s os
  step s (delete_by_ref_call r) = delete_by_ref env s r

  unfoldable pub run : OutputSet ApplyOption → List (Call ApplyOption) → OutputSet ApplyOption
  run s [] = s
  run s (c ∷ cs) = run (step s c) cs

  -- Both sets are valid, and only objects that are applied have apply options.
  pub record IsValid (s : OutputSet ApplyOption) : Type 0 where
    pub applied : ObjectSet.Laws.IsValid env s.applied
    pub deleted : ObjectSet.Laws.IsValid env s.deleted
    pub options :
        (k : String) → GoMap.member k s.apply_opts ≡ true → GoMap.member k s.applied.set ≡ true

  new_output_set-IsValid : IsValid (new_output_set env)
  unfolding new_output_set GoMap.member GoMap.lookup
  new_output_set-IsValid = record {
    applied = new-IsValid env;
    deleted = new-IsValid env;
    options = λ k p. ground arith;
  }

  apply-IsValid :
      (s : OutputSet ApplyOption) (o : Object) (opts : List ApplyOption)
      → IsValid s
      → IsValid (apply env s o opts)
  unfolding apply GoMap.member
  apply-IsValid s o opts h = record {
    applied = insert-IsValid env s.applied (o ∷ []) h.applied;
    deleted = h.deleted;
    options = λ k p. ground (
      arith,
      h.options k,
      at_key-insert_one env s.applied o k,
      lookup-insert (key_of env o) k opts s.apply_opts,
    );
  }

  apply_all-IsValid :
      (s : OutputSet ApplyOption) (os : List Object) → IsValid s → IsValid (apply_all env s os)
  unfolding apply_all GoMap.member
  apply_all-IsValid s [] h = h
  apply_all-IsValid s (o ∷ os) h =
      apply_all-IsValid (record s { applied = ObjectSet.insert env s.applied (o ∷ []) }) os
        (record {
          applied = insert-IsValid env s.applied (o ∷ []) h.applied;
          deleted = h.deleted;
          options = λ k p. ground (arith, h.options k, at_key-insert_one env s.applied o k);
        })

  delete-IsValid_lem :
      (s : OutputSet ApplyOption) (o : Object) → IsValid s → IsValid (delete env s o)
  unfolding delete GoMap.member
  delete-IsValid_lem s o h = record {
    applied = delete-IsValid env s.applied (o ∷ []) h.applied;
    deleted = insert-IsValid env s.deleted (o ∷ []) h.deleted;
    options = λ k p. ground (
      arith,
      h.options k,
      at_key-delete_one env s.applied o k,
      lookup-delete (key_of env o) k s.apply_opts,
    );
  }

  delete_all-IsValid :
      (s : OutputSet ApplyOption) (os : List Object) → IsValid s → IsValid (delete_all env s os)
  unfolding delete_all
  delete_all-IsValid s [] h = h
  delete_all-IsValid s (o ∷ os) h =
      delete_all-IsValid (delete env s o) os (delete-IsValid_lem s o h)

  step-IsValid : (s : OutputSet ApplyOption) (c : Call ApplyOption) → IsValid s → IsValid (step s c)
  unfolding step delete_by_ref
  step-IsValid s (apply_call o opts) h = apply-IsValid s o opts h
  step-IsValid s (apply_all_call os) h = apply_all-IsValid s os h
  step-IsValid s (delete_call o) h = delete-IsValid_lem s o h
  step-IsValid s (delete_all_call os) h = delete_all-IsValid s os h
  step-IsValid s (delete_by_ref_call r) h = delete-IsValid_lem s (partial_object r) h

  run_from-IsValid :
      (s : OutputSet ApplyOption) (cs : List (Call ApplyOption)) → IsValid s → IsValid (run s cs)
  unfolding run
  run_from-IsValid s [] h = h
  run_from-IsValid s (c ∷ cs) h = run_from-IsValid (step s c) cs (step-IsValid s c h)

  -- After any calls of `Apply`, `ApplyAll`, `Delete`, `DeleteAll` and `DeleteByRef` on a new output
  -- set, both of its sets hold each object under its own key and no key twice, and apply options
  -- are kept only for objects that are to be applied.
  pub run-IsValid : (cs : List (Call ApplyOption)) → IsValid (run (new_output_set env) cs)
  run-IsValid cs = run_from-IsValid (new_output_set env) cs new_output_set-IsValid

  pub options_of-apply :
      (s : OutputSet ApplyOption) (o : Object) (opts : List ApplyOption)
      → options_of env (apply env s o opts) o ≡ opts
  unfolding apply options_of
  options_of-apply s o opts =
      ground (
        arith,
        lookup-insert (key_of env o) (key_of env o) opts s.apply_opts,
        eq_refl (key_of env o),
      )

  -- The last word on an object counts: after `Delete(o)` nothing is applied under the key of `o`,
  -- its options are gone and `o` is to be deleted; after `Apply(o, opts...)` it is applied with
  -- those options. A deletion that came before stays listed, so that `o` is deleted and applied
  -- anew. In the set of applied objects, the set of deleted ones and the apply options, every other
  -- key is as before.
  pub last_call_wins :
      (s : OutputSet ApplyOption) (o : Object) (opts : List ApplyOption) (k : String)
      → (at_key (delete env s o).applied k
          ≡ (if key_of env o == k then none else at_key s.applied k))
        × (at_key (delete env s o).deleted k
            ≡ (if key_of env o == k then some o else at_key s.deleted k))
        × (GoMap.lookup k (delete env s o).apply_opts
            ≡ (if key_of env o == k then none else GoMap.lookup k s.apply_opts))
        × (at_key (apply env s o opts).applied k
            ≡ (if key_of env o == k then some o else at_key s.applied k))
        × (GoMap.lookup k (apply env s o opts).apply_opts
            ≡ (if key_of env o == k then some opts else GoMap.lookup k s.apply_opts))
        × (at_key (apply env s o opts).deleted k ≡ at_key s.deleted k)
  unfolding apply delete
  last_call_wins s o opts k = (
    at_key-delete_one env s.applied o k,
    at_key-insert_one env s.deleted o k,
    lookup-delete (key_of env o) k s.apply_opts,
    at_key-insert_one env s.applied o k,
    lookup-insert (key_of env o) k opts s.apply_opts,
    refl,
  )

  -- `ApplyAll(o)` is not `Apply(o)` for an object that was applied with options before: it keeps
  -- those options, and `Apply(o)` drops them.
  pub apply_all_keeps_options :
      (s : OutputSet ApplyOption) (o : Object)
      → options_of env s o ≢ []
      → (options_of env (apply_all env s (o ∷ [])) o ≡ options_of env s o)
        × (options_of env (apply env s o []) o ≡ [])
        × (apply_all env s (o ∷ []) ≢ apply env s o [])
  unfolding apply_all options_of
  apply_all_keeps_options s o some_options =
      let dropped = options_of-apply s o [] in
      (refl, dropped, λ same. some_options (ap (λ t. options_of env t o) same ∙ dropped))

-- ===== src/Io/Applicator/Settled.antt =====
-- When `Apply` and `ApplyStatus` of pkg/io/applicator.go leave the server alone: a reconciliation
-- that finds nothing to change must not write, or it would cause the next one.
use achilles_sdk.Api.{
  Env, Fields, History, Object, attempt, call, lift, ok, patch, patch_status, pure, update,
  update_status, wrapping, ◌>>=◌, unless_error,
}
use achilles_sdk.Io.Applicator.{
  ApplyOption, RequestOptions, apply, apply_fetched, apply_existing, apply_opts, apply_status,
  apply_status_existing, apply_status_fetched, no_request_options, write_status,
}
use achilles_sdk.Api.Histories.{then_pure-history}
use achilles_sdk.Api.{attempt, unless_error, patch_status, update_status}
use achilles_sdk.Io.Applicator.{
  apply, apply_fetched, apply_existing, apply_opts, apply_status, apply_status_existing,
  apply_status_fetched, no_request_options, write_status, ApplyOption,
}
use achilles_sdk.Io.Applicator.Laws.{get_of}
use achilles_sdk.Prelude.{
  Bool, Bool-cases, List, Option, String, contains, false, if◌then◌else◌, inl, inr, is_some, none,
  not, refl, string_eq, true, ◌&&◌, ◌||◌, ◌∙◌, ◌∷◌, ◌≡◌, ◌⊎◌,
}

-- One request that changes the object, or its status, has been made since.
abbrev pub IsWritten : History → History → Type 0
IsWritten h h' = (o : Object) × ((h' ≡ update o ∷ h) ⊎ (h' ≡ patch o ∷ h))

abbrev pub IsStatusWritten : History → History → Type 0
IsStatusWritten h h' = (o : Object) × ((h' ≡ update_status o ∷ h) ⊎ (h' ≡ patch_status o ∷ h))

module _ (env : Env) where
  -- The fields that `Apply` compares: all of them, or all but the status where the server's object
  -- has a status subresource.
  abbrev pub compared : Object → Fields → Fields
  compared current fields =
      if contains current.managed_fields "status"
      then env.remove_nested_field fields "status"
      else fields

  -- Whether the statuses of the two count as the same: neither has one, or they are equal.
  abbrev pub same_status : Option String → Option String → Bool
  same_status s s' = (not (is_some s) && not (is_some s')) || env.deep_equal_value s s'

  module _ (ro : RequestOptions) (c d : Object) (before after : Fields) (h : History)
      (read : env.to_unstructured c ≡ ok before) (made : env.to_unstructured d ≡ ok after) where
    module _ (s s' : Option String) (copied : env.nested_field_copy before "status" ≡ ok s)
        (copied' : env.nested_field_copy after "status" ≡ ok s') where
      write_status_same : same_status s s' ≡ true → write_status env ro c d h ≡ (ok tt, h)
      unfolding write_status lift wrapping ◌>>=◌ pure
      write_status_same same = rw read (rw made (rw copied (rw copied' (rw same refl))))

      write_status_other :
          same_status s s' ≡ false → IsStatusWritten h (write_status env ro c d h).1
      unfolding write_status lift wrapping ◌>>=◌ pure call
      write_status_other other = elim (Bool-cases ro.update) [
        | inl e ↦
            let o : Object = record d { uid = c.uid; resource_version = c.resource_version } in
            (
              o,
              inl (
                  rw read (
                    rw made (
                      rw copied (
                        rw copied' (
                          rw other (
                            rw e (
                              then_pure-history
                                (wrapping "cannot update object status"
                                  (call env (update_status o)))
                                tt h))))))),
            )
        | inr e ↦
            let o : Object = record d { uid = c.uid; resource_version = "" } in
            (
              o,
              inr (
                  rw read (
                    rw made (
                      rw copied (
                        rw copied' (
                          rw other (
                            rw e (
                              then_pure-history
                                (wrapping "cannot patch object status" (call env (patch_status o)))
                                tt h))))))),
            )
      ]

  module _ (o f o' : Object) (opts : List ApplyOption) (ro : RequestOptions) (before after : Fields)
      (h : History) (found : env.respond h (get_of o) ≡ ok f)
      (changed : apply_opts o no_request_options opts ≡ (o', ro, none))
      (read : env.to_unstructured f ≡ ok before) (made : env.to_unstructured o' ≡ ok after) where
    apply_status_found : apply_status env o opts h ≡ write_status env ro f o' (get_of o ∷ h)
    unfolding apply_status apply_status_fetched apply_status_existing unless_error ◌>>=◌ attempt
        call
    apply_status_found = rw found (rw changed refl)

    -- `ApplyStatus` of an object that the server has, where the options can be applied and both
    -- objects can be converted: it writes nothing if the two have the same status, or none, and
    -- otherwise makes exactly one update or patch of the status.
    pub apply_status_settled :
        (s s' : Option String)
        → env.nested_field_copy before "status" ≡ ok s
        → env.nested_field_copy after "status" ≡ ok s'
        → ((same_status s s' ≡ true) × (apply_status env o opts h ≡ (ok tt, get_of o ∷ h)))
          ⊎ ((same_status s s' ≡ false)
              × IsStatusWritten (get_of o ∷ h) (apply_status env o opts h).1)
    apply_status_settled s s' copied copied' =
        let h' = get_of o ∷ h in
        elim (Bool-cases (same_status s s')) [
          | inl same ↦ inl (
            same,
            apply_status_found
                ∙ write_status_same ro f o' before after h' read made s s' copied copied' same,
          )
          | inr other ↦ inr (
            other,
            rw apply_status_found
                (write_status_other ro f o' before after h' read made s s' copied copied' other),
          )
        ]

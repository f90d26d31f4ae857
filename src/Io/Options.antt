-- ===== src/Io/Options.antt =====
-- pkg/io/options.go: the apply options that the SDK offers.
use achilles_sdk.Api.{Env, Object, resource_version_missing}
use achilles_sdk.Io.Applicator.{ApplyOption}
use achilles_sdk.Meta.{Application, set_controller_ref, set_owner_ref, set_reddit_labels}
use achilles_sdk.Prelude.{String, if◌then◌else◌, none, some, string_eq, true, ◌==◌, ◌||◌}

unfoldable pub with_reddit_labels : Application → String → ApplyOption
with_reddit_labels app controller_name o opts =
    (set_reddit_labels app o controller_name, opts, none)

unfoldable pub with_controller_ref : Env → Object → ApplyOption
with_controller_ref env owner o opts =
    if opts.without_owner_refs || opts.has_explicit_owner_refs
    then (o, opts, none)
    else (let (o', e) = set_controller_ref env o owner in (o', opts, e))

unfoldable pub with_owner_ref : Env → Object → ApplyOption
with_owner_ref env owner o opts =
    if opts.without_owner_refs
    then (o, opts, none)
    else (let (o', e) = set_owner_ref env o owner in
        (o', record opts { has_explicit_owner_refs = true }, e))

unfoldable pub without_owner_refs : ApplyOption
without_owner_refs o opts = (o, record opts { without_owner_refs = true }, none)

unfoldable pub with_optimistic_lock : ApplyOption
with_optimistic_lock o opts =
    if o.resource_version == ""
    then (o, opts, some resource_version_missing)
    else (o, record opts { enforce_optimistic_lock = true }, none)

unfoldable pub as_update : ApplyOption
as_update o opts = (o, record opts { update = true }, none)

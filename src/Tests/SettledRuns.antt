-- ===== src/Tests/SettledRuns.antt =====
-- `Apply` and `ApplyStatus` against a server whose object is like the one that is applied.
use achilles_sdk.Api.{Env, ok}
use achilles_sdk.Io.Applicator.{apply_opts, apply_status, no_request_options}
use achilles_sdk.Io.Applicator.Laws.{get_of}
use achilles_sdk.Io.Applicator.Settled.{IsStatusWritten, apply_status_settled, same_status}
use achilles_sdk.Tests.World.{server_with, web}
use achilles_sdk.Prelude.{[], false, none, refl, string_eq, true, ◌∷◌, ◌≡◌, ◌⊎◌}

-- Whatever is compared is equal.
abbrev settled : Env
settled = record (server_with web) { deep_equal = λ a b. true; deep_equal_value = λ a b. true }

apply_status_settled_example :
    ((same_status settled none none ≡ true)
      × (apply_status settled web [] [] ≡ (ok tt, get_of web ∷ [])))
    ⊎ ((same_status settled none none ≡ false)
        × IsStatusWritten (get_of web ∷ []) (apply_status settled web [] []).1)
unfolding apply_opts
apply_status_settled_example =
    apply_status_settled settled web web web [] no_request_options [] [] [] refl refl refl refl none
      none refl refl

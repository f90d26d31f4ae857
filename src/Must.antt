-- ===== src/Must.antt =====
-- pkg/must/must.go. A panic is `none`.
use achilles_sdk.Api.{Error}
use achilles_sdk.Prelude.{Option, none, some}

-- `Do` of what the function returns.
unfoldable pub must : Option Error → Option (Unit {0})
must none = some tt
must (some e) = none

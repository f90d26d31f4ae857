-- ===== src/Logging.antt =====
-- pkg/logging/logging.go. A context is what stands in it under the package's key; no other package
-- can name that key. A logger is a parameter, and a nil pointer to one is `none`.
use achilles_sdk.Api.{Try, err, ok, plain}
use achilles_sdk.Prelude.{Option, String, none, some}

-- context.Context
pub record Context (Logger : Type 0) : Type 0 where
  pub logger : Option Logger

module _ {Logger : Type 0} where
  unfoldable pub new_context : Context Logger → Option Logger → Context Logger
  new_context ctx logger = record ctx { logger = logger }

  unfoldable pub from_context : Context Logger → Try Logger
  from_context ctx = elim ctx.logger [
    | some logger ↦ ok logger
    | none ↦ err (plain "no *zap.SugaredLogger was present")
  ]

  -- `named` is the logger's method.
  unfoldable pub controller_ctx :
      (Logger → String → Logger) → Context Logger → String → Try (Context Logger × Logger)
  unfolding from_context
  controller_ctx named ctx controller_name = elim (from_context ctx) [
    | err e ↦ err e
    | ok logger ↦ ok (ctx, named logger controller_name)
  ]

-- ===== src/Bootstrap/Calls.antt =====
-- The calls into client-go, controller-runtime and zap that pkg/bootstrap makes, in their order, and
-- code that makes them: it returns a value or an error, or it panics.
use achilles_sdk.Api.{wrap, Error, Try, err, ok}
use achilles_sdk.Prelude.{Bool, List, Option, String, none, some, ℕ, ◌∷◌}

-- rest.Config. `rest` is what stands in it beside the two fields that are set.
pub record RestConfig (Float32 : Type 0) : Type 0 where
  pub rest : String
  pub qps : Float32
  pub burst : ℕ

-- clientcmd.ClientConfigLoadingRules
pub data LoadingRules : Type 0 where
  explicit_path : String → LoadingRules
  default_rules : LoadingRules

pub data LogLevel : Type 0 where
  info_level debug_level : LogLevel

-- The options for zap of controller-runtime's log package.
pub data LogOption : Type 0 where
  level : LogLevel → LogOption
  iso8601_time_encoder : LogOption
  use_dev_mode : Bool → LogOption

-- manager.Options
pub record ManagerOptions : Type 0 where
  pub health_probe_bind_address : String
  pub metrics_bind_address : String
  pub sync_period : ℕ
  pub leader_election : Bool
  pub leader_election_id : String
  pub leader_election_namespace : String
  pub renew_deadline : ℕ
  pub lease_duration : ℕ

abbrev answered : (Error → Error) → Option Error → Option (Try (Unit {0}))
answered wrapping none = some (ok tt)
answered wrapping (some e) = some (err (wrapping e))

abbrev wrapped : {A : Type 0} → String → Option (Try A) → Option (Try A)
wrapped text none = none
wrapped text (some (ok a)) = some (ok a)
wrapped text (some (err e)) = some (err (wrap text e))

module _ (Float32 Logger : Type 0) where
  pub data Call : Type 0 where
    set_logger : Logger → Call
    new_manager : RestConfig Float32 → Logger → ManagerOptions → Call
    add_healthz_check : String → Call
    add_readyz_check : String → Call
    add_to_scheme : Call
    start_func : Logger → Call
    start_manager : Call

  -- What the libraries and the StartFunc answer, a call by the calls before it.
  pub record Libraries : Type 0 where
    pub new_development : Try Logger
    pub new_raw : List LogOption → Logger
    pub in_cluster_config : Try (RestConfig Float32)
    pub client_config : LoadingRules → String → Option (RestConfig Float32) × Option Error
    pub respond : List Call → Call → Option Error

  -- `none` is a panic.
  abbrev pub Code : Type 0 → Type 0
  Code A = List Call → Option (Try A) × List Call

module _ {Float32 Logger : Type 0} where
  unfoldable pub pure : {A : Type 0} → A → Code Float32 Logger A
  pure a calls = (some (ok a), calls)

  unfoldable pub raise : {A : Type 0} → Error → Code Float32 Logger A
  raise e calls = (some (err e), calls)

  unfoldable pub panic : {A : Type 0} → Code Float32 Logger A
  panic calls = (none, calls)

  abbrev pub continue :
      {A B : Type 0} → Option (Try A) → (A → Code Float32 Logger B) → Code Float32 Logger B
  continue none f calls = (none, calls)
  continue (some (err e)) f calls = (some (err e), calls)
  continue (some (ok a)) f calls = f a calls

  infixl 5 ◌>>=◌ ◌>>◌
  abbrev pub ◌>>=◌ :
      {A B : Type 0} → Code Float32 Logger A → (A → Code Float32 Logger B) → Code Float32 Logger B
  ◌>>=◌ m f calls = let (r, calls') = m calls in continue r f calls'

  abbrev pub ◌>>◌ :
      {A B : Type 0} → Code Float32 Logger A → Code Float32 Logger B → Code Float32 Logger B
  m >> k = m >>= λ _. k

  -- A call, and the return of its error with the text in front of it.
  unfoldable pub call :
      Libraries Float32 Logger
      → (Error → Error)
      → Call Float32 Logger
      → Code Float32 Logger (Unit {0})
  call libraries wrapping c calls = (answered wrapping (libraries.respond calls c), c ∷ calls)

  -- `if err != nil { return fmt.Errorf("text: %w", err) }`
  unfoldable pub wrapping : {A : Type 0} → String → Code Float32 Logger A → Code Float32 Logger A
  wrapping text m calls = let (r, calls') = m calls in (wrapped text r, calls')

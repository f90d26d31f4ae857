-- ===== src/RateLimiter.antt =====
-- pkg/ratelimiter/ratelimit.go: the rate limiters of k8s.io/client-go/util/workqueue that the package
-- puts together. A duration is a number of seconds.
use achilles_sdk.Prelude.{ℕ, ◌*◌}

pub data RateLimiter : Type 0 where
  bucket : ℕ → ℕ → RateLimiter  -- the limit per second, and the burst
  item_exponential_failure : ℕ → ℕ → RateLimiter  -- the base delay, and the greatest delay
  max_of : RateLimiter → RateLimiter → RateLimiter

abbrev pub default_provider_rps : ℕ
default_provider_rps = 1

unfoldable pub new_global : ℕ → RateLimiter
new_global rps = bucket rps (rps * 10)

unfoldable pub new_default_provider_rate_limiter : ℕ → RateLimiter
unfolding new_global
new_default_provider_rate_limiter rps = new_global rps

unfoldable pub new_default_managed_rate_limiter : RateLimiter → RateLimiter
new_default_managed_rate_limiter provider = max_of (item_exponential_failure 1 60) provider

unfoldable pub new_zero_delay_managed_rate_limiter : RateLimiter → RateLimiter
new_zero_delay_managed_rate_limiter provider = max_of (item_exponential_failure 0 60) provider

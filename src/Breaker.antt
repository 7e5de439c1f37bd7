-- ===== src/Breaker.antt =====
-- apps/api/src/aether/app/llm/circuit_breaker.py: the circuit breaker of one provider.
-- A method takes the reading of the clock that it asks for, and returns the new breaker. `none`
-- stands for the AssertionError of `is_open`.
pub mod Runs
pub mod Window
use aether_ai_workspace.Base.{
  ℕ, ◌+◌, ◌*◌, Bool, true, false, ◌||◌, Option, none, some, leb, if◌then◌else◌,
}
use aether_ai_workspace.Domain.Entities.{Instant, microseconds}

pub data BreakerState : Type 0 where
  closed open_ half_open : BreakerState

pub record CircuitBreaker : Type 0 where
  pub failure_threshold : ℕ
  pub cooldown_seconds : ℕ
  pub state : BreakerState
  pub consecutive_failures : ℕ
  pub opened_at : Option Instant

-- `__init__`
unfoldable pub new_breaker : ℕ → ℕ → CircuitBreaker
new_breaker failure_threshold cooldown_seconds = record {
  failure_threshold = failure_threshold;
  cooldown_seconds = cooldown_seconds;
  state = closed;
  consecutive_failures = 0;
  opened_at = none;
}

abbrev pub default_failure_threshold : ℕ
default_failure_threshold = 3

abbrev pub default_cooldown_seconds : ℕ
default_cooldown_seconds = 30

abbrev pub is_half_open : BreakerState → Bool
is_half_open half_open = true
is_half_open _ = false

-- `elapsed >= cooldown` is written without the subtraction, which could be negative.
unfoldable pub opened_check :
    CircuitBreaker → Option Instant → Instant → Option (CircuitBreaker × Bool)
opened_check b none now = none
opened_check b (some at) now =
    if leb (at + microseconds b.cooldown_seconds) now
    then some (record b { state = half_open }, false)
    else some (b, true)

unfoldable pub is_open_in : BreakerState → CircuitBreaker → Instant → Option (CircuitBreaker × Bool)
unfolding opened_check
is_open_in open_ b now = opened_check b b.opened_at now
is_open_in _ b now = some (b, false)

unfoldable pub is_open : CircuitBreaker → Instant → Option (CircuitBreaker × Bool)
unfolding is_open_in
is_open b now = is_open_in b.state b now

unfoldable pub record_success : CircuitBreaker → CircuitBreaker
record_success b = record b { state = closed; consecutive_failures = 0; opened_at = none }

unfoldable pub record_failure : CircuitBreaker → Instant → CircuitBreaker
record_failure b now =
    let failures = b.consecutive_failures + 1 in
    if is_half_open b.state || leb b.failure_threshold failures
    then record b { state = open_; consecutive_failures = failures; opened_at = some now }
    else record b { consecutive_failures = failures }

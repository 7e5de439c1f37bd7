-- ===== src/Tests/Breakers.antt =====
-- Runs of the circuit breaker.
use aether_ai_workspace.Base.{◌≡◌, refl, true, false, some, [], ◌∷◌, arith}
use aether_ai_workspace.Breaker.{
  CircuitBreaker, closed, open_, half_open, new_breaker, record_failure, default_failure_threshold,
  default_cooldown_seconds,
}
use aether_ai_workspace.Breaker.Runs.{
  check, success, failure, calls, fail_all, IsConsistent, calls-new_breaker, fail_all-new_breaker,
}
use aether_ai_workspace.Breaker.Window.{checks, checks-cooled, checks-tripped}

calls-new_breaker_example :
    (b : CircuitBreaker) × (calls
        (new_breaker default_failure_threshold default_cooldown_seconds)
        (failure 1 ∷ failure 2 ∷ failure 3 ∷ check 4 ∷ success ∷ [])
      ≡ some b)
    × IsConsistent b
calls-new_breaker_example =
    calls-new_breaker default_failure_threshold default_cooldown_seconds
      (failure 1 ∷ failure 2 ∷ failure 3 ∷ check 4 ∷ success ∷ []) (omega arith)

fail_all-new_breaker_example :
    let b : CircuitBreaker = fail_all (new_breaker 3 30) (5 ∷ 6 ∷ []) in
    (b.state ≡ closed)
    × ((record_failure b 7).state ≡ open_)
    × ((record_failure b 7).opened_at ≡ some 7)
fail_all-new_breaker_example = fail_all-new_breaker 30 (5 ∷ 6 ∷ []) 7

abbrev opened : CircuitBreaker
opened = record (new_breaker 3 30) { state = open_; opened_at = some 7; consecutive_failures = 3 }

checks-cooled_example :
    checks opened (30000007 ∷ 30000008 ∷ [])
    ≡ some (record opened { state = half_open }, false ∷ false ∷ [])
unfolding new_breaker
checks-cooled_example = checks-cooled opened 7 30000007 (30000008 ∷ []) refl refl (omega arith)

checks-tripped_example :
    let b : CircuitBreaker = fail_all (new_breaker 3 30) (5 ∷ 6 ∷ 7 ∷ []) in
    checks b (8 ∷ 30000006 ∷ 30000007 ∷ 9 ∷ [])
    ≡ some (record b { state = half_open }, true ∷ true ∷ false ∷ false ∷ [])
checks-tripped_example =
    checks-tripped 30 (5 ∷ 6 ∷ []) 7 (8 ∷ 30000006 ∷ []) 30000007 (9 ∷ [])
      (omega arith, (omega arith, tt)) (omega arith)

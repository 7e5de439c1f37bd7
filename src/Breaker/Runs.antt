-- ===== src/Breaker/Runs.antt =====
-- Every sequence of calls on a circuit breaker: the assertion of `is_open` never fails, and the
-- breaker trips exactly at the threshold.
use aether_ai_workspace.Base.{
  ℕ, ◌+◌, ◌<◌, ◌≡◌, refl, Bool, true, Option, none, some, List, [], ◌∷◌, ◌++◌, length, arith,
  is_none, not, ◌&&◌, ltb,
}
use aether_ai_workspace.Domain.Entities.{Instant}
use aether_ai_workspace.Breaker.{
  BreakerState, closed, open_, half_open, CircuitBreaker, new_breaker, is_open, record_success,
  record_failure,
}

-- The calls of the router, each with the clock's reading.
pub data Call : Type 0 where
  check : Instant → Call
  success : Call
  failure : Instant → Call

-- `state` and `opened_at` agree, and a closed breaker has not reached its threshold.
abbrev agrees : BreakerState → Option Instant → ℕ → ℕ → Bool
agrees closed opened_at failures threshold = is_none opened_at && ltb failures threshold
agrees open_ opened_at failures threshold = not (is_none opened_at)
agrees half_open opened_at failures threshold = not (is_none opened_at)

abbrev pub IsConsistent : CircuitBreaker → Type 0
IsConsistent b = agrees b.state b.opened_at b.consecutive_failures b.failure_threshold ≡ true

-- One call; `none` when the assertion fails.
unfoldable pub call : CircuitBreaker → Call → Option CircuitBreaker
call b (check now) = elim (is_open b now) [ none ↦ none | some (b', _) ↦ some b' ]
call b success = some (record_success b)
call b (failure now) = some (record_failure b now)

unfoldable pub calls : CircuitBreaker → List Call → Option CircuitBreaker
unfolding call
calls b [] = some b
calls b (c ∷ cs) = elim (call b c) [ none ↦ none | some b' ↦ calls b' cs ]

-- A call on a consistent breaker raises nothing, and leaves it consistent.
call-IsConsistent :
    (b : CircuitBreaker) (c : Call)
    → 0 < b.failure_threshold
    → IsConsistent b
    → (b' : CircuitBreaker) × (call b c ≡ some b')
      × IsConsistent b'
      × (b'.failure_threshold ≡ b.failure_threshold)
unfolding call is_open record_success record_failure
call-IsConsistent b (check now) pos h = go (is_open b now) refl
  where
    go :
        (r : Option (CircuitBreaker × Bool))
        → is_open b now ≡ r
        → (b' : CircuitBreaker) × (call b (check now) ≡ some b')
          × IsConsistent b'
          × (b'.failure_threshold ≡ b.failure_threshold)
    go none e = absurd (ground arith)
    go (some (b', _)) e = (b', ground arith, ground arith, ground arith)
call-IsConsistent b success pos h = (record_success b, refl, ground arith, refl)
call-IsConsistent b (failure now) pos h = (record_failure b now, refl, ground arith, ground arith)

calls-IsConsistent :
    (cs : List Call) (b : CircuitBreaker)
    → 0 < b.failure_threshold
    → IsConsistent b
    → (b' : CircuitBreaker) × (calls b cs ≡ some b') × IsConsistent b'
unfolding calls
calls-IsConsistent [] b pos h = (b, refl, h)
calls-IsConsistent (c ∷ cs) b pos h =
    let (b1, e, h1, t) = call-IsConsistent b c pos h in
    let (b2, e2, h2) = calls-IsConsistent cs b1 (omega arith) h1 in (b2, rw (e, calls) e2, h2)

-- Where the threshold is positive, a new breaker survives every sequence of calls without an
-- AssertionError, and is then consistent: it is closed exactly when no opening time is set, and a
-- closed breaker has counted fewer failures than its threshold.
pub calls-new_breaker :
    (threshold cooldown : ℕ) (cs : List Call)
    → 0 < threshold
    → (b : CircuitBreaker) × (calls (new_breaker threshold cooldown) cs ≡ some b) × IsConsistent b
unfolding new_breaker
calls-new_breaker threshold cooldown cs pos =
    calls-IsConsistent cs (new_breaker threshold cooldown) pos (ground arith)

-- Failures in a row, from a closed breaker that has counted `n`.
unfoldable pub fail_all : CircuitBreaker → List Instant → CircuitBreaker
fail_all b [] = b
fail_all b (t ∷ ts) = fail_all (record_failure b t) ts

-- A closed breaker stays closed through fewer failures than are left to its threshold, and counts
-- them.
fail_all-closed :
    (ts : List Instant) (b : CircuitBreaker)
    → b.state ≡ closed
    → b.consecutive_failures + length ts < b.failure_threshold
    → fail_all b ts ≡ record b { consecutive_failures = b.consecutive_failures + length ts }
unfolding fail_all record_failure
fail_all-closed [] b c h = ground arith
fail_all-closed (t ∷ ts) b c h =
    let b1 = record b { consecutive_failures = b.consecutive_failures + 1 } in
    let stays : record_failure b t ≡ b1 = ground arith in
    rw (stays, fail_all) (ground (arith, fail_all-closed ts b1 c))

-- A new breaker is still closed after one failure less than its threshold, and the next failure in
-- a row opens it, at the time of that failure.
pub fail_all-new_breaker :
    (cooldown : ℕ) (ts : List Instant) (t : Instant)
    → let b : CircuitBreaker = fail_all (new_breaker (length ts + 1) cooldown) ts in
      (b.state ≡ closed)
      × ((record_failure b t).state ≡ open_)
      × ((record_failure b t).opened_at ≡ some t)
unfolding new_breaker record_failure
fail_all-new_breaker cooldown ts t =
    let e = fail_all-closed ts (new_breaker (length ts + 1) cooldown) refl (omega arith) in
    ground (arith, e)

fail_all-append :
    (b : CircuitBreaker) (ts : List Instant) (t : Instant)
    → fail_all b (ts ++ (t ∷ [])) ≡ record_failure (fail_all b ts) t
unfolding fail_all
fail_all-append b [] t = refl
fail_all-append b (u ∷ ts) t = fail_all-append (record_failure b u) ts t

-- The breaker that has reached its threshold.
pub fail_all-tripped :
    (cooldown : ℕ) (ts : List Instant) (t : Instant)
    → let b : CircuitBreaker = fail_all (new_breaker (length ts + 1) cooldown) (ts ++ (t ∷ [])) in
      (b.state ≡ open_) × (b.opened_at ≡ some t) × (b.cooldown_seconds ≡ cooldown)
unfolding new_breaker record_failure
fail_all-tripped cooldown ts t =
    let e = fail_all-closed ts (new_breaker (length ts + 1) cooldown) refl (omega arith) in
    let f = fail_all-append (new_breaker (length ts + 1) cooldown) ts t in ground (arith, e, f)

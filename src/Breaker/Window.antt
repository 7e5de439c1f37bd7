-- ===== src/Breaker/Window.antt =====
-- How long a tripped circuit breaker rejects calls, and what it lets through after that.
use aether_ai_workspace.Base.{
  ℕ, length, ◌++◌, ◌+◌, ◌≤◌, ◌<◌, ◌≡◌, refl, Bool, true, false, Option, none, some, List, [], ◌∷◌,
  arith, All,
}
use aether_ai_workspace.Domain.Entities.{Instant, microseconds}
use aether_ai_workspace.Breaker.Runs.{fail_all, fail_all-tripped}
use aether_ai_workspace.Breaker.{
  open_, half_open, CircuitBreaker, new_breaker, is_open, record_success, record_failure,
}

-- The answers of `is_open` at a sequence of readings, with the breaker after them.
unfoldable pub checks : CircuitBreaker → List Instant → Option (CircuitBreaker × List Bool)
checks b [] = some (b, [])
checks b (t ∷ ts) = elim (is_open b t) [
  | none ↦ none
  | some (b1, rejected) ↦ elim (checks b1 ts) [
    | none ↦ none
    | some (b2, rs) ↦ some (b2, rejected ∷ rs)
  ]
]

abbrev pub all_same : Bool → List Instant → List Bool
all_same r [] = []
all_same r (t ∷ ts) = r ∷ all_same r ts

checks-open :
    (b : CircuitBreaker) (at : Instant) (ts rest : List Instant)
    → b.state ≡ open_
    → b.opened_at ≡ some at
    → All (λ t. t < at + microseconds b.cooldown_seconds) ts
    → (after : CircuitBreaker) (answers : List Bool) → checks b rest ≡ some (after, answers)
    → checks b (ts ++ rest) ≡ some (after, all_same true ts ++ answers)
unfolding checks is_open
checks-open b at [] rest o e h after answers then_ = then_
checks-open b at (t ∷ ts) rest o e h after answers then_ =
    ground (arith, checks-open b at ts rest o e h.1 after answers then_)

-- Once the cooldown has passed, the call is let through and the breaker is half open.
pub is_open-cooled :
    (b : CircuitBreaker) (at now : Instant)
    → b.state ≡ open_
    → b.opened_at ≡ some at
    → at + microseconds b.cooldown_seconds ≤ now
    → is_open b now ≡ some (record b { state = half_open }, false)
unfolding is_open
is_open-cooled b at now o e h = ground arith

-- A half-open breaker lets every call through until one of them reports its outcome: it does not
-- count its probes.
checks-half_open :
    (b : CircuitBreaker) (ts : List Instant)
    → b.state ≡ half_open
    → checks b ts ≡ some (b, all_same false ts)
unfolding checks is_open
checks-half_open b [] o = refl
checks-half_open b (t ∷ ts) o = ground (arith, checks-half_open b ts o)

-- After the cooldown an open breaker lets the next call through, and also every call after it,
-- however many, until one of them reports its outcome.
pub checks-cooled :
    (b : CircuitBreaker) (at now : Instant) (ts : List Instant)
    → b.state ≡ open_
    → b.opened_at ≡ some at
    → at + microseconds b.cooldown_seconds ≤ now
    → checks b (now ∷ ts) ≡ some (record b { state = half_open }, all_same false (now ∷ ts))
unfolding checks
checks-cooled b at now ts o e h =
    rw (is_open-cooled b at now o e h, checks)
      (ground (arith, checks-half_open (record b { state = half_open }) ts refl))

-- A new breaker that has as many failures in a row as its threshold, the last of them at `at`, and
-- then is asked at any readings of the clock before the end of its cooldown, at one not before that
-- end, and at any readings after this one, with no outcome reported between: it rejects all calls
-- before the end, lets all others through, and is half open then.
pub checks-tripped :
    (cooldown : ℕ) (failures : List Instant) (at : Instant) (early : List Instant) (now : Instant)
    (late : List Instant)
    → All (λ t. t < at + microseconds cooldown) early
    → at + microseconds cooldown ≤ now
    → let b : CircuitBreaker =
        fail_all (new_breaker (length failures + 1) cooldown) (failures ++ (at ∷ [])) in
      checks b (early ++ (now ∷ late))
      ≡ some (record b { state = half_open }, all_same true early ++ all_same false (now ∷ late))
checks-tripped cooldown failures at early now late before after =
    let b = fail_all (new_breaker (length failures + 1) cooldown) (failures ++ (at ∷ [])) in
    let (is_open_, since, same) = fail_all-tripped cooldown failures at in
    let e : b.cooldown_seconds ≡ cooldown = same in
    checks-open b at early (now ∷ late) is_open_ since (rw e before) _ _
      (checks-cooled b at now late is_open_ since (rw e after))

-- A failure opens a half-open breaker at once, and a success closes it and forgets the failures.
pub probe_outcome :
    (b : CircuitBreaker) (now : Instant)
    → b.state ≡ half_open
    → ((record_failure b now).state ≡ open_)
      × ((record_failure b now).opened_at ≡ some now)
      × (record_success b ≡ new_breaker b.failure_threshold b.cooldown_seconds)
unfolding record_failure record_success new_breaker
probe_outcome b now h = ground arith

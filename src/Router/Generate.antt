-- ===== src/Router/Generate.antt =====
-- `LlmRouter` of apps/api/src/aether/app/llm/router.py: the fallback chain over the providers.
-- A run is the whole drained generator. Other generations that run at the same time, and the
-- semaphores that bound their number, are not modelled.
pub mod Fallback
use aether_ai_workspace.Base.{
  ℕ, zero, suc, ◌+◌, Bool, true, false, Option, none, some, List, [], ◌∷◌, ◌++◌, Text, codes,
  text_eq, if◌then◌else◌, or_else,
}
use aether_ai_workspace.Domain.Entities.{Instant, Message}
use aether_ai_workspace.Breaker.{CircuitBreaker, is_open, record_failure}
use aether_ai_workspace.Router.Envelope.{RetrievedContext}
use aether_ai_workspace.Router.Messages.{
  ProviderCapability, CompletionRequest, LlmMessage, build_messages, active_system_prompt,
}
use aether_ai_workspace.Router.Relay.{
  ProviderChunk, GeneratorChunk, Exn, provider_error, no_provider_available, key_error,
  assertion_error, other_error, Attempt, new_attempt, relay,
}

-- What a provider's stream may raise: a `ProviderError`, or anything else.
pub data StreamError : Type 0 where
  provider_failure : (message : Text) (retryable : Bool) → StreamError
  unexpected : (message : Text) → StreamError

abbrev pub to_exn : StreamError → Exn
to_exn (provider_failure message retryable) = provider_error message retryable
to_exn (unexpected message) = other_error message

-- What a provider streams for one request: its chunks, and the exception that ends them, if any.
pub record ProviderRun : Type 0 where
  pub chunks : List ProviderChunk
  pub ending : Option StreamError

-- `ProviderAdapterPort`; the number tells the calls of one generation apart.
pub record Provider : Type 0 where
  pub capabilities : List ProviderCapability
  pub stream_completion : ℕ → CompletionRequest → ProviderRun

pub record LlmRouter : Type 0 where
  pub providers : List (Text × Provider)
  pub model_chain : List (Text × Text)
  pub max_tokens : ℕ

-- The clock's readings at the n-th entry of the chain: at `is_open`, and at `record_failure`.
pub record Readings : Type 0 where
  pub check_time : ℕ → Instant
  pub failure_time : ℕ → Instant

-- `d[name]`
unfoldable pub lookup {ℓ} : {V : Type ℓ} → Text → List (Text × V) → Option V
lookup name [] = none
lookup name ((k, v) ∷ d) = if text_eq k name then some v else lookup name d

-- The breaker of a name, with its new state: breakers are shared objects.
unfoldable pub put {ℓ} : {V : Type ℓ} → Text → V → List (Text × V) → List (Text × V)
put name v [] = []
put name v ((k, w) ∷ d) = if text_eq k name then (k, v) ∷ d else (k, w) ∷ put name v d

-- `self._capabilities[(provider_name, model)]`: of two entries for one model the later one stays.
unfoldable pub capability_of : Text → List ProviderCapability → Option ProviderCapability
capability_of model [] = none
capability_of model (c ∷ cs) = elim (capability_of model cs) [
  | some later ↦ some later
  | none ↦ if text_eq c.model model then some c else none
]

abbrev pub Breakers : Type 0
Breakers = List (Text × CircuitBreaker)

-- How a generation ends: the breakers, everything that it yielded, and what it raised, if anything.
pub record Generated : Type 0 where
  pub breakers : Breakers
  pub yielded : List GeneratorChunk
  pub raised : Option Exn

-- What the `except ProviderError` handler decides after an attempt.
pub data Verdict : Type 0 where
  stop : Option Exn → Verdict
  fall_back : (message : Text) → Verdict

unfoldable pub verdict : Attempt → Option Exn → Verdict
verdict a none = stop none
verdict a (some (provider_error message retryable)) =
    if a.text_sent
    then stop (some (provider_error message retryable))
    else if retryable
    then fall_back message
    else stop (some (no_provider_available message))
verdict a (some e) = stop (some e)

-- `breaker.record_failure()` is called unless text was sent.
unfoldable pub after_failure : Attempt → Option Exn → Instant → CircuitBreaker
after_failure a (some (provider_error message retryable)) now =
    if a.text_sent then a.breaker else record_failure a.breaker now
after_failure a _ now = a.breaker

-- An exception of the loop itself comes before the end of the stream.
unfoldable pub first_exn : Option Exn → Option StreamError → Option Exn
first_exn (some e) ending = some e
first_exn none none = none
first_exn none (some e) = some (to_exn e)

-- One call of a provider, to the end of its stream.
unfoldable pub attempt_with :
    LlmRouter
    → Text
    → CompletionRequest
    → ℕ
    → Text
    → CircuitBreaker
    → Provider
    → Attempt × Option Exn
unfolding capability_of new_attempt relay first_exn
attempt_with router system_prompt request i model breaker provider =
    let run = provider.stream_completion i request in
    let (a, e) =
      relay (capability_of model provider.capabilities) model system_prompt (new_attempt breaker)
        run.chunks in
    (a, first_exn e run.ending)

abbrev pub all_open_message : Text
all_open_message = codes "no provider available (all breakers open)"

-- What the entries behind the current one do with the breakers and the last error.
abbrev pub Rest : Type 0
Rest = Option Text → Breakers → Generated

abbrev raise : Breakers → Exn → Generated
raise breakers e = record { breakers = breakers; yielded = []; raised = some e }

abbrev prepend : List GeneratorChunk → Generated → Generated
prepend yielded g = record g { yielded = yielded ++ g.yielded }

unfoldable pub conclude : Verdict → List GeneratorChunk → Breakers → Rest → Generated
conclude (stop e) yielded breakers rest = record {
  breakers = breakers;
  yielded = yielded;
  raised = e;
}
conclude (fall_back message) yielded breakers rest = prepend yielded (rest (some message) breakers)

unfoldable pub try_provider :
    LlmRouter
    → Text
    → List LlmMessage
    → Readings
    → ℕ
    → Text
    → Text
    → Breakers
    → CircuitBreaker
    → Option Provider
    → Rest
    → Generated
unfolding attempt_with verdict after_failure conclude put
try_provider router system_prompt messages clock i name model breakers breaker none rest =
    raise breakers key_error
try_provider router system_prompt messages clock i name model breakers breaker (some provider)
      rest =
    let request : CompletionRequest = record {
      messages = messages;
      model = model;
      max_tokens = router.max_tokens;
    } in
    let (a, e) = attempt_with router system_prompt request i model breaker provider in
    conclude (verdict a e) a.yielded (put name (after_failure a e (clock.failure_time i)) breakers)
      rest

-- One entry of the chain: skipped while its breaker is open.
module _ (router : LlmRouter) (system_prompt : Text) (messages : List LlmMessage) (clock : Readings)
    (i : ℕ) (name model : Text) (last_error : Option Text) (breakers : Breakers) (rest : Rest) where
  unfoldable pub admit_entry : Option (CircuitBreaker × Bool) → Generated
  unfolding try_provider lookup put
  admit_entry none = raise breakers assertion_error
  admit_entry (some (b, true)) = rest last_error (put name b breakers)
  admit_entry (some (b, false)) =
      try_provider router system_prompt messages clock i name model (put name b breakers) b
        (lookup name router.providers) rest

  unfoldable pub check_entry : Option CircuitBreaker → Generated
  unfolding admit_entry
  check_entry none = raise breakers key_error
  check_entry (some breaker) = admit_entry (is_open breaker (clock.check_time i))

  unfoldable pub try_entry : Generated
  unfolding check_entry
  try_entry = check_entry (lookup name breakers)

unfoldable pub run_chain :
    LlmRouter
    → Text
    → List LlmMessage
    → Readings
    → ℕ
    → List (Text × Text)
    → Option Text
    → Breakers
    → Generated
unfolding try_entry
run_chain router system_prompt messages clock i [] last_error breakers =
    raise breakers (no_provider_available (or_else last_error all_open_message))
run_chain router system_prompt messages clock i ((name, model) ∷ chain) last_error breakers =
    try_entry router system_prompt messages clock i name model last_error breakers
      (run_chain router system_prompt messages clock (suc i) chain)

unfoldable pub generate :
    LlmRouter
    → Readings
    → Breakers
    → List Message
    → Text
    → Option RetrievedContext
    → Option Text
    → Generated
unfolding run_chain
generate router clock breakers thread_history user_content context memory_summary =
    run_chain router (active_system_prompt context)
      (build_messages thread_history user_content context memory_summary) clock 0 router.model_chain
      none breakers

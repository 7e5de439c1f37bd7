-- ===== src/Router/Relay.antt =====
-- The streaming loop of `LlmRouter.generate` in apps/api/src/aether/app/llm/router.py: what one
-- provider streams, and what of it reaches the caller.
pub mod Filter
use aether_ai_workspace.Base.{
  ℕ, Bool, true, false, ◌&&◌, Option, none, some, List, [], ◌∷◌, ◌++◌, Text, text_eq, if◌then◌else◌,
}
use aether_ai_workspace.Breaker.{CircuitBreaker, record_success}
use aether_ai_workspace.Router.Prompts.{leak_intervention_message}
use aether_ai_workspace.Router.Leak.{reply_leaks_system_prompt}
use aether_ai_workspace.Router.Messages.{ProviderCapability, cost_microcents}

-- `ProviderChunk`: a text delta, or the token counts of the provider.
pub data ProviderChunk : Type 0 where
  delta : Text → ProviderChunk
  provider_usage : (prompt_tokens completion_tokens : ℕ) → ProviderChunk

pub record GenerationUsage : Type 0 where
  pub prompt_tokens : ℕ
  pub completion_tokens : ℕ
  pub cost_microcents : ℕ
  pub model : Text

-- `GeneratorChunk`
pub data GeneratorChunk : Type 0 where
  text : Text → GeneratorChunk
  generation_usage : GenerationUsage → GeneratorChunk

-- What a stream or the generator may raise.
pub data Exn : Type 0 where
  provider_error : (message : Text) (retryable : Bool) → Exn
  no_provider_available : (message : Text) → Exn
  key_error : Exn
  assertion_error : Exn
  other_error : (message : Text) → Exn

-- The variables of one attempt, with the breaker that it reports to and what it has yielded.
pub record Attempt : Type 0 where
  pub breaker : CircuitBreaker
  pub responded : Bool
  pub text_sent : Bool
  pub leak_intervened : Bool
  pub accumulated_reply : Text
  pub yielded : List GeneratorChunk

unfoldable pub new_attempt : CircuitBreaker → Attempt
new_attempt breaker = record {
  breaker = breaker;
  responded = false;
  text_sent = false;
  leak_intervened = false;
  accumulated_reply = [];
  yielded = [];
}

-- The first chunk of a stream is the breaker's success.
unfoldable pub respond : Attempt → Attempt
unfolding record_success
respond a =
    if a.responded then a else record a { breaker = record_success a.breaker; responded = true }

unfoldable pub usage_of : ProviderCapability → Text → ℕ → ℕ → GenerationUsage
unfolding cost_microcents
usage_of capability model prompt_tokens completion_tokens = record {
  prompt_tokens = prompt_tokens;
  completion_tokens = completion_tokens;
  cost_microcents = cost_microcents capability prompt_tokens completion_tokens;
  model = model;
}

-- A text delta: dropped after an intervention, replaced where it completes a leak, else passed on.
unfoldable pub relay_text : Text → Attempt → Text → Attempt
relay_text system_prompt a chunk =
    let accumulated = a.accumulated_reply ++ chunk in
    if a.leak_intervened
    then a
    else if reply_leaks_system_prompt accumulated system_prompt
    then record a {
      accumulated_reply = accumulated;
      text_sent = true;
      leak_intervened = true;
      yielded = a.yielded ++ (text leak_intervention_message ∷ []);
    }
    else record a {
      accumulated_reply = accumulated;
      text_sent = true;
      yielded = a.yielded ++ (text chunk ∷ []);
    }

-- The provider's token counts, with their price.
unfoldable pub relay_usage : ProviderCapability → Text → Attempt → ℕ → ℕ → Attempt
unfolding usage_of
relay_usage capability model a prompt_tokens completion_tokens = record a {
  yielded =
      a.yielded
      ++ (generation_usage (usage_of capability model prompt_tokens completion_tokens) ∷ []);
}

-- The loop over the stream. A model that the registry lacks is a KeyError at the usage chunk.
unfoldable pub relay :
    Option ProviderCapability → Text → Text → Attempt → List ProviderChunk → Attempt × Option Exn
unfolding respond relay_text relay_usage
relay capability model system_prompt a [] = (a, none)
relay capability model system_prompt a (delta chunk ∷ chunks) =
    relay capability model system_prompt (relay_text system_prompt (respond a) chunk) chunks
relay none model system_prompt a (provider_usage p c ∷ chunks) = (respond a, some key_error)
relay (some capability) model system_prompt a (provider_usage p c ∷ chunks) =
    relay (some capability) model system_prompt (relay_usage capability model (respond a) p c)
      chunks

-- ===== src/Router/Generate/Fallback.antt =====
-- The fallback chain: all text that reaches the caller comes from one provider.
use aether_ai_workspace.Base.{
  ℕ, suc, ◌≡◌, ◌≢◌, refl, ◌⊎◌, inl, inr, Bool, true, false, Option, none, some, List, [], ◌∷◌, ◌++◌,
  Text, arith, ◌∙◌, sym, ap, Bool-cases,
}
use aether_ai_workspace.Domain.Entities.{Message}
use aether_ai_workspace.Breaker.{CircuitBreaker, is_open}
use aether_ai_workspace.Router.Envelope.{RetrievedContext}
use aether_ai_workspace.Router.Messages.{
  ProviderCapability, CompletionRequest, LlmMessage, build_messages, active_system_prompt,
}
use aether_ai_workspace.Router.Relay.{
  ProviderChunk, delta, provider_usage, Exn, no_provider_available, Attempt, new_attempt, respond,
  relay_text, relay_usage, relay,
}
use aether_ai_workspace.Router.Relay.Filter.{texts, texts-append, relay_usage-keeps}
use mathlib.Core.Path.{subst}
use aether_ai_workspace.Router.Generate.{
  admit_entry, check_entry, Provider, LlmRouter, Readings, StreamError, lookup, put, Breakers,
  Generated, Verdict, stop, fall_back, verdict, after_failure, first_exn, attempt_with, Rest,
  conclude, try_provider, try_entry, run_chain, generate, capability_of,
}

-- Text was yielded only if `text_sent` says so.
abbrev IsHonest : Attempt → Type 0
IsHonest a = a.text_sent ≡ false → texts a.yielded ≡ []

relay_text-IsHonest :
    (prompt : Text) (a : Attempt) (t : Text)
    → IsHonest a
    → IsHonest (relay_text prompt (respond a) t)
unfolding relay_text respond
relay_text-IsHonest prompt a t h e = ground arith

relay_usage-IsHonest :
    (capability : ProviderCapability) (model : Text) (a : Attempt) (p c : ℕ)
    → IsHonest a
    → IsHonest (relay_usage capability model (respond a) p c)
relay_usage-IsHonest capability model a p c h e =
    (relay_usage-keeps capability model a p c).0 ∙ h (sent e)
  where
    sent : (relay_usage capability model (respond a) p c).text_sent ≡ false → a.text_sent ≡ false
    sent e = unfold relay_usage respond in ground arith

respond-IsHonest : (a : Attempt) → IsHonest a → IsHonest (respond a)
unfolding respond
respond-IsHonest a h e = ground arith

relay-IsHonest :
    (capability : Option ProviderCapability) (model prompt : Text) (chunks : List ProviderChunk)
    (a : Attempt)
    → IsHonest a
    → IsHonest (relay capability model prompt a chunks).0
unfolding relay
relay-IsHonest capability model prompt [] a h = h
relay-IsHonest capability model prompt (delta t ∷ chunks) a h =
    relay-IsHonest capability model prompt chunks (relay_text prompt (respond a) t)
      (relay_text-IsHonest prompt a t h)
relay-IsHonest none model prompt (provider_usage p c ∷ chunks) a h = respond-IsHonest a h
relay-IsHonest (some capability) model prompt (provider_usage p c ∷ chunks) a h =
    relay-IsHonest (some capability) model prompt chunks
      (relay_usage capability model (respond a) p c) (relay_usage-IsHonest capability model a p c h)

relay-raises :
    (capability : Option ProviderCapability) (model prompt : Text) (chunks : List ProviderChunk)
    (a : Attempt) (m : Text)
    → (relay capability model prompt a chunks).1 ≢ some (no_provider_available m)
unfolding relay
relay-raises capability model prompt [] a m = λ e. cc
relay-raises capability model prompt (delta t ∷ chunks) a m =
    relay-raises capability model prompt chunks (relay_text prompt (respond a) t) m
relay-raises none model prompt (provider_usage p c ∷ chunks) a m = λ e. cc
relay-raises (some capability) model prompt (provider_usage p c ∷ chunks) a m =
    relay-raises (some capability) model prompt chunks
      (relay_usage capability model (respond a) p c) m

first_exn-raises :
    (e : Option Exn) (ending : Option StreamError) (m : Text)
    → e ≢ some (no_provider_available m)
    → first_exn e ending ≢ some (no_provider_available m)
unfolding first_exn
first_exn-raises e ending m h x = ground arith

-- The handler after an attempt: with text sent it stops, and never claims that no provider is left.
verdict-sent :
    (a : Attempt) (e : Option Exn)
    → a.text_sent ≡ true
    → ((m : Text) → e ≢ some (no_provider_available m))
    → (e' : Option Exn) × (verdict a e ≡ stop e')
      × ((m : Text) → e' ≢ some (no_provider_available m))
unfolding verdict
verdict-sent a e h n = (e, ground arith, n)

module _ (router : LlmRouter) (prompt : Text) (messages : List LlmMessage) where
  abbrev request : Text → CompletionRequest
  request model = record { messages = messages; model = model; max_tokens = router.max_tokens }

  attempt-IsHonest :
      (i : ℕ) (model : Text) (breaker : CircuitBreaker) (provider : Provider)
      → IsHonest (attempt_with router prompt (request model) i model breaker provider).0
  unfolding attempt_with
  attempt-IsHonest i model breaker provider =
      relay-IsHonest (capability_of model provider.capabilities) model prompt
        (provider.stream_completion i (request model)).chunks (new_attempt breaker)
        (λ e. unfold new_attempt texts in refl)

  attempt-raises :
      (i : ℕ) (model : Text) (breaker : CircuitBreaker) (provider : Provider) (m : Text)
      → (attempt_with router prompt (request model) i model breaker provider).1
        ≢ some (no_provider_available m)
  unfolding attempt_with
  attempt-raises i model breaker provider m =
      let run = provider.stream_completion i (request model) in
      first_exn-raises _ run.ending m (
        relay-raises (capability_of model provider.capabilities) model prompt run.chunks
          (new_attempt breaker) m)

  -- The texts are those of one call of one provider.
  pub record Spoke (got : List Text) : Type 0 where
    pub position : ℕ
    pub name : Text
    pub model : Text
    pub provider : Provider
    pub breaker : CircuitBreaker
    pub registered : lookup name router.providers ≡ some provider
    pub same :
        got
        ≡ texts
            (attempt_with router prompt (request model) position model breaker provider).0.yielded

  -- Nothing was said; or one provider spoke, and the generation does not claim that none did.
  abbrev pub OneVoice : Generated → Type 0
  OneVoice g =
      (texts g.yielded ≡ [])
      ⊎ (Spoke (texts g.yielded) × ((m : Text) → g.raised ≢ some (no_provider_available m)))

  conclude-OneVoice :
      (a : Attempt) (e : Option Exn) (breakers : Breakers) (rest : Rest)
      → IsHonest a
      → ((m : Text) → e ≢ some (no_provider_available m))
      → Spoke (texts a.yielded)
      → ((last : Option Text) (b : Breakers) → OneVoice (rest last b))
      → OneVoice (conclude (verdict a e) a.yielded breakers rest)
  unfolding conclude
  conclude-OneVoice a e breakers rest honest n spoke h = elim (Bool-cases a.text_sent) [
    | inl sent ↦ let (e', v, ne) = verdict-sent a e sent n in rw v (inr (spoke, ne))
    | inr silent ↦ go (verdict a e) (honest silent)
  ]
    where
      go : (v : Verdict) → texts a.yielded ≡ [] → OneVoice (conclude v a.yielded breakers rest)
      go (stop x) s = inl s
      go (fall_back m) s = pass (rest (some m) breakers) s (h (some m) breakers)
        where
          pass :
              (g : Generated)
              → texts a.yielded ≡ []
              → OneVoice g
              → OneVoice (record g { yielded = a.yielded ++ g.yielded })
          pass g s x =
              let e : texts (a.yielded ++ g.yielded) ≡ texts g.yielded =
                texts-append a.yielded g.yielded ∙ ap (λ u. u ++ texts g.yielded) s in
              elim x [ inl z ↦ inl (e ∙ z) | inr w ↦ inr (subst Spoke (sym e) w.0, w.1) ]

  try_provider-OneVoice :
      (clock : Readings) (i : ℕ) (name model : Text) (breakers : Breakers)
      (breaker : CircuitBreaker) (provider : Option Provider) (rest : Rest)
      → lookup name router.providers ≡ provider
      → ((last : Option Text) (b : Breakers) → OneVoice (rest last b))
      → OneVoice
          (try_provider router prompt messages clock i name model breakers breaker provider rest)
  unfolding try_provider
  try_provider-OneVoice clock i name model breakers breaker none rest e h =
      inl (unfold texts in refl)
  try_provider-OneVoice clock i name model breakers breaker (some provider) rest e h =
      let r = attempt_with router prompt (request model) i model breaker provider in
      conclude-OneVoice r.0 r.1 (put name (after_failure r.0 r.1 (clock.failure_time i)) breakers)
        rest (attempt-IsHonest i model breaker provider) (attempt-raises i model breaker provider)
        (record {
          position = i;
          name = name;
          model = model;
          provider = provider;
          breaker = breaker;
          registered = e;
          same = refl;
        })
        h

  module _ (clock : Readings) (i : ℕ) (name model : Text) (last_error : Option Text)
      (breakers : Breakers) (rest : Rest)
      (h : (last : Option Text) (b : Breakers) → OneVoice (rest last b)) where
    admit_entry-OneVoice :
        (o : Option (CircuitBreaker × Bool))
        → OneVoice
            (admit_entry router prompt messages clock i name model last_error breakers rest o)
    unfolding admit_entry
    admit_entry-OneVoice none = inl (unfold texts in refl)
    admit_entry-OneVoice (some (b, true)) = h last_error (put name b breakers)
    admit_entry-OneVoice (some (b, false)) =
        try_provider-OneVoice clock i name model (put name b breakers) b
          (lookup name router.providers) rest refl h

    check_entry-OneVoice :
        (o : Option CircuitBreaker)
        → OneVoice
            (check_entry router prompt messages clock i name model last_error breakers rest o)
    unfolding check_entry
    check_entry-OneVoice none = inl (unfold texts in refl)
    check_entry-OneVoice (some b) = admit_entry-OneVoice (is_open b (clock.check_time i))

    try_entry-OneVoice :
        OneVoice (try_entry router prompt messages clock i name model last_error breakers rest)
    unfolding try_entry
    try_entry-OneVoice = check_entry-OneVoice (lookup name breakers)

  run_chain-OneVoice :
      (clock : Readings) (chain : List (Text × Text)) (i : ℕ) (last_error : Option Text)
      (breakers : Breakers)
      → OneVoice (run_chain router prompt messages clock i chain last_error breakers)
  unfolding run_chain
  run_chain-OneVoice clock [] i last_error breakers = inl (unfold texts in refl)
  run_chain-OneVoice clock ((name, model) ∷ chain) i last_error breakers =
      try_entry-OneVoice clock i name model last_error breakers _
        (run_chain-OneVoice clock chain (suc i))

-- Whatever the providers stream and the breakers say, a generation passes on no text at all, or all
-- the texts that it passes on are those of one single call of one registered provider; in the
-- second case it does not end with the error that no provider is available.
pub generate-OneVoice :
    (router : LlmRouter) (clock : Readings) (breakers : Breakers) (thread_history : List Message)
    (user_content : Text) (context : Option RetrievedContext) (memory_summary : Option Text)
    → OneVoice router
        (active_system_prompt context)
        (build_messages thread_history user_content context memory_summary)
        (generate router clock breakers thread_history user_content context memory_summary)
unfolding generate
generate-OneVoice router clock breakers thread_history user_content context memory_summary =
    run_chain-OneVoice router (active_system_prompt context)
      (build_messages thread_history user_content context memory_summary) clock router.model_chain 0
      none breakers

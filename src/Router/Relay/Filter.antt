-- ===== src/Router/Relay/Filter.antt =====
-- What reaches the caller of one provider's stream.
use aether_ai_workspace.Base.{
  ℕ, ◌≤◌, ◌≡◌, refl, ◌⊎◌, inl, inr, true, false, some, List, [], ◌∷◌, ◌++◌, Text, length, arith,
  All, append-nil, append_assoc, ◌∙◌, sym, ap, Bool-cases,
}
use mathlib.Core.Path.{subst, subst₂}
use aether_ai_workspace.Breaker.{CircuitBreaker}
use aether_ai_workspace.Router.Prompts.{leak_intervention_message}
use aether_ai_workspace.Router.Leak.{leak_threshold_chars, reply_leaks_system_prompt}
use aether_ai_workspace.Router.Leak.Exact.{
  Leaks, Leaks-widen, Contains-append, long_text, reply-Leaks_iff,
}
use aether_ai_workspace.Router.Messages.{ProviderCapability}
use aether_ai_workspace.Router.Relay.{
  relay_usage, ProviderChunk, delta, provider_usage, GenerationUsage, GeneratorChunk, text,
  generation_usage, Attempt, new_attempt, respond, usage_of, relay_text, relay,
}

-- The texts among the chunks that the caller gets.
unfoldable pub texts : List GeneratorChunk → List Text
texts [] = []
texts (text t ∷ cs) = t ∷ texts cs
texts (generation_usage u ∷ cs) = texts cs

-- The usages among them.
unfoldable pub usages : List GeneratorChunk → List GenerationUsage
usages [] = []
usages (text t ∷ cs) = usages cs
usages (generation_usage u ∷ cs) = u ∷ usages cs

-- The text deltas of a stream.
unfoldable pub deltas : List ProviderChunk → List Text
deltas [] = []
deltas (delta t ∷ cs) = t ∷ deltas cs
deltas (provider_usage p c ∷ cs) = deltas cs

-- `"".join(parts)`
unfoldable pub concat : List Text → Text
concat [] = []
concat (t ∷ ts) = t ++ concat ts

pub texts-append : (xs ys : List GeneratorChunk) → texts (xs ++ ys) ≡ texts xs ++ texts ys
unfolding texts
texts-append [] ys = refl
texts-append (text t ∷ xs) ys = ap (λ u. t ∷ u) (texts-append xs ys)
texts-append (generation_usage u ∷ xs) ys = texts-append xs ys

pub usages-append : (xs ys : List GeneratorChunk) → usages (xs ++ ys) ≡ usages xs ++ usages ys
unfolding usages
usages-append [] ys = refl
usages-append (text t ∷ xs) ys = usages-append xs ys
usages-append (generation_usage u ∷ xs) ys = ap (λ v. u ∷ v) (usages-append xs ys)

concat-snoc : (ts : List Text) (t : Text) → concat (ts ++ (t ∷ [])) ≡ concat ts ++ t
unfolding concat
concat-snoc [] t = append-nil t
concat-snoc (s ∷ ts) t = ap (λ u. s ++ u) (concat-snoc ts t) ∙ sym (append_assoc s (concat ts) t)

-- The first chunk changes the breaker only.
pub respond-keeps :
    (a : Attempt)
    → ((respond a).yielded ≡ a.yielded)
      × ((respond a).leak_intervened ≡ a.leak_intervened)
      × ((respond a).accumulated_reply ≡ a.accumulated_reply)
unfolding respond
respond-keeps a = ground arith

-- A usage chunk is passed on with its price, and changes nothing else that is read here.
pub relay_usage-keeps :
    (capability : ProviderCapability) (model : Text) (a : Attempt) (p c : ℕ)
    → let b : Attempt = relay_usage capability model (respond a) p c in
      (texts b.yielded ≡ texts a.yielded)
      × (b.leak_intervened ≡ a.leak_intervened)
      × (b.accumulated_reply ≡ a.accumulated_reply)
unfolding relay_usage texts
relay_usage-keeps capability model a p c =
    let (y, l, r) = respond-keeps a in
    (texts-append (respond a).yielded _ ∙ append-nil _ ∙ ap texts y, l, r)

module _ (prompt : Text) (a : Attempt) (t : Text) where
  abbrev after : Attempt
  after = relay_text prompt (respond a) t

  relay_text-dropped :
      a.leak_intervened ≡ true
      → (texts after.yielded ≡ texts a.yielded) × (after.leak_intervened ≡ true)
  unfolding relay_text
  relay_text-dropped h = ground (arith, respond-keeps a)

  relay_text-passed :
      a.leak_intervened ≡ false
      → reply_leaks_system_prompt (a.accumulated_reply ++ t) prompt ≡ false
      → (texts after.yielded ≡ texts a.yielded ++ (t ∷ []))
        × (after.leak_intervened ≡ false)
        × (after.accumulated_reply ≡ a.accumulated_reply ++ t)
  unfolding relay_text texts
  relay_text-passed h clean = ground (arith, respond-keeps a, texts-append a.yielded (text t ∷ []))

  relay_text-replaced :
      a.leak_intervened ≡ false
      → reply_leaks_system_prompt (a.accumulated_reply ++ t) prompt ≡ true
      → (texts after.yielded ≡ texts a.yielded ++ (leak_intervention_message ∷ []))
        × (after.leak_intervened ≡ true)
  unfolding relay_text texts
  relay_text-replaced h leak =
      ground (arith, respond-keeps a, texts-append a.yielded (text leak_intervention_message ∷ []))

-- The usage chunks of a stream, with their prices.
unfoldable pub priced : ProviderCapability → Text → List ProviderChunk → List GenerationUsage
priced capability model [] = []
priced capability model (delta t ∷ cs) = priced capability model cs
priced capability model (provider_usage p c ∷ cs) =
    usage_of capability model p c ∷ priced capability model cs

usages-relay_text :
    (prompt : Text) (a : Attempt) (t : Text)
    → usages (relay_text prompt (respond a) t).yielded ≡ usages a.yielded
unfolding relay_text usages
usages-relay_text prompt a t = ground (
  arith,
  respond-keeps a,
  append-nil (usages a.yielded),
  usages-append a.yielded (text t ∷ []),
  usages-append a.yielded (text leak_intervention_message ∷ []),
)

usages-relay_usage :
    (capability : ProviderCapability) (model : Text) (a : Attempt) (p c : ℕ)
    → usages (relay_usage capability model (respond a) p c).yielded
      ≡ usages a.yielded ++ (usage_of capability model p c ∷ [])
unfolding relay_usage usages
usages-relay_usage capability model a p c =
    usages-append (respond a).yielded _
    ∙ ap (λ u. usages u ++ (usage_of capability model p c ∷ [])) (respond-keeps a).0

module _ (capability : ProviderCapability) (model prompt : Text) where
  -- After an intervention no text is passed on any more.
  relay-intervened :
      (chunks : List ProviderChunk) (a : Attempt)
      → a.leak_intervened ≡ true
      → texts (relay (some capability) model prompt a chunks).0.yielded ≡ texts a.yielded
  unfolding relay
  relay-intervened [] a h = refl
  relay-intervened (delta t ∷ chunks) a h =
      let (y, l) = relay_text-dropped prompt a t h in
      relay-intervened chunks (relay_text prompt (respond a) t) l ∙ y
  relay-intervened (provider_usage p c ∷ chunks) a h =
      let (y, l, r) = relay_usage-keeps capability model a p c in
      relay-intervened chunks (relay_usage capability model (respond a) p c) (l ∙ h) ∙ y

  -- What the caller got in the end: all deltas, or those in front of the intervention.
  abbrev pub Exact : Text → List Text → List ProviderChunk → List Text → Type 0
  Exact reply sent chunks got =
      ((¬ (Leaks leak_threshold_chars prompt (reply ++ concat (deltas chunks))))
        × (got ≡ sent ++ deltas chunks))
      ⊎ (Leaks leak_threshold_chars prompt (reply ++ concat (deltas chunks))
          × ((before : List Text) × (got ≡ before ++ (leak_intervention_message ∷ []))
              × (¬ (Leaks leak_threshold_chars prompt (concat before)))))

  -- A delta that was passed on moves from the stream to what was sent.
  pass_on :
      (t : Text) (chunks : List ProviderChunk) (reply : Text) (sent got : List Text)
      → Exact (reply ++ t) (sent ++ (t ∷ [])) chunks got
      → Exact reply sent (delta t ∷ chunks) got
  unfolding deltas concat
  pass_on t chunks reply sent got x =
      rw
        (
          ← append_assoc reply t (concat (deltas chunks)),
          ← append_assoc sent (t ∷ []) (deltas chunks),
        )
        x

  relay-Exact_from :
      (chunks : List ProviderChunk) (a : Attempt)
      → a.leak_intervened ≡ false
      → concat (texts a.yielded) ≡ a.accumulated_reply
      → ¬ (Leaks leak_threshold_chars prompt a.accumulated_reply)
      → All (λ t. length t ≤ 21) (deltas chunks)
      → Exact a.accumulated_reply
          (texts a.yielded)
          chunks
          (texts (relay (some capability) model prompt a chunks).0.yielded)
  unfolding relay deltas concat
  relay-Exact_from [] a l e clean short =
      inl (rw (append-nil a.accumulated_reply) clean, sym (append-nil (texts a.yielded)))
  relay-Exact_from (provider_usage p c ∷ chunks) a l e clean short =
      let b = relay_usage capability model (respond a) p c in
      let (y, lb, r) = relay_usage-keeps capability model a p c in
      subst₂
        (λ reply sent.
          Exact reply sent chunks (texts (relay (some capability) model prompt b chunks).0.yielded))
        r y
        (relay-Exact_from chunks b (lb ∙ l) (ap concat y ∙ e ∙ sym r)
          (subst (λ u. ¬ (Leaks leak_threshold_chars prompt u)) (sym r) clean) short)
  relay-Exact_from (delta t ∷ chunks) a l e clean short =
      elim (Bool-cases (reply_leaks_system_prompt (a.accumulated_reply ++ t) prompt)) [
        | inl leak ↦
            let (y, lb) = relay_text-replaced prompt a t l leak in
            let found = (reply-Leaks_iff a.accumulated_reply t prompt clean short.0).0 leak in
            inr (
              subst (Leaks leak_threshold_chars prompt)
                  (append_assoc a.accumulated_reply t (concat (deltas chunks)))
                  (Leaks-widen found
                    (λ u. Contains-append u (a.accumulated_reply ++ t) (concat (deltas chunks)))),
              (
                texts a.yielded,
                relay-intervened chunks (relay_text prompt (respond a) t) lb ∙ y,
                subst (λ u. ¬ (Leaks leak_threshold_chars prompt u)) (sym e) clean,
              ),
            )
        | inr no_leak ↦
            let b = relay_text prompt (respond a) t in
            let (y, lb, r) = relay_text-passed prompt a t l no_leak in
            let still : ¬ (Leaks leak_threshold_chars prompt (a.accumulated_reply ++ t)) =
              λ k. cc (no_leak, (reply-Leaks_iff a.accumulated_reply t prompt clean short.0).1 k) in
            pass_on t chunks a.accumulated_reply (texts a.yielded) _ (
              subst₂
                (λ reply sent.
                  Exact reply sent chunks
                    (texts (relay (some capability) model prompt b chunks).0.yielded))
                r y
                (relay-Exact_from chunks b lb
                  (ap concat y ∙ concat-snoc (texts a.yielded) t ∙ ap (λ u. u ++ t) e ∙ sym r)
                  (subst (λ u. ¬ (Leaks leak_threshold_chars prompt u)) (sym r) still) short.1))
      ]

  usages-relay :
      (chunks : List ProviderChunk) (a : Attempt)
      → usages (relay (some capability) model prompt a chunks).0.yielded
        ≡ usages a.yielded ++ priced capability model chunks
  unfolding relay priced
  usages-relay [] a = sym (append-nil (usages a.yielded))
  usages-relay (delta t ∷ chunks) a =
      usages-relay chunks (relay_text prompt (respond a) t)
      ∙ ap (λ u. u ++ priced capability model chunks) (usages-relay_text prompt a t)
  usages-relay (provider_usage p c ∷ chunks) a =
      usages-relay chunks (relay_usage capability model (respond a) p c)
      ∙ ap (λ u. u ++ priced capability model chunks) (usages-relay_usage capability model a p c)
      ∙ append_assoc (usages a.yielded) (usage_of capability model p c ∷ [])
          (priced capability model chunks)

-- A provider streams any chunks in deltas of at most 21 characters. If the whole reply does not
-- hold fifty characters of the system prompt in a row, the caller gets every delta unchanged. If it
-- does, the caller gets some texts that together do not hold fifty such characters, then the
-- intervention message, and no text after it. The usage chunks all arrive, priced, either way.
pub relay-Exact :
    (capability : ProviderCapability) (model prompt : Text) (breaker : CircuitBreaker)
    (chunks : List ProviderChunk)
    → All (λ t. length t ≤ 21) (deltas chunks)
    → let got : List GeneratorChunk =
        (relay (some capability) model prompt (new_attempt breaker) chunks).0.yielded in
      Exact capability model prompt [] [] chunks (texts got)
      × (usages got ≡ priced capability model chunks)
unfolding new_attempt texts concat usages
relay-Exact capability model prompt breaker chunks short = (
  relay-Exact_from capability model prompt chunks (new_attempt breaker) refl refl
      (λ l. absurd (omega (arith, long_text l))) short,
  usages-relay capability model prompt chunks (new_attempt breaker),
)

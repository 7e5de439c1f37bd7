-- ===== src/Sse/Complete.antt =====
-- A complete buffer (apps/api/src/aether/domain/streaming.py, app/chat/send_message.py): one that
-- holds the events of a stream that was read to its end.
use aether_ai_workspace.Base.{
  arith, ℕ, suc, ◌≡◌, ◌⊎◌, inl, inr, refl, sym, ap, ◌∙◌, Bool, true, false, ◌&&◌, &&-eq_true, none,
  some, List, [], ◌∷◌, map, text_eq, ◌==◌, ==_iff, Bool-cases, Option-cases,
}
use aether_ai_workspace.Domain.Entities.{Uuid}
use aether_ai_workspace.Streaming.{
  GenerationStatus, StreamEvent, seq_of, event_type_name, BufferedEvent, to_buffered, generation_of,
}
use aether_ai_workspace.Streaming.Grammar.{StreamPhase, next_phase, advance, read_from}
use aether_ai_workspace.Sse.{is_done}

-- Numbered from `n` without a gap, and the last event, and no other, is `done`.
abbrev pub IsComplete : ℕ → List BufferedEvent → Type 0
IsComplete n [] = ⊥
IsComplete n (e ∷ []) = (e.seq ≡ n) × (is_done e ≡ true)
IsComplete n (e ∷ x ∷ events) = (e.seq ≡ n) × (is_done e ≡ false) × IsComplete (suc n) (x ∷ events)

read_from-none : (g : Uuid) (es : List StreamEvent) → read_from g none es ≡ none
unfolding read_from
read_from-none g [] = refl
read_from-none g (e ∷ es) = read_from-none g es

-- An event that a reader took.
advance-some :
    (g : Uuid) (n : ℕ) (phase : StreamPhase) (e : StreamEvent)
    → (advance g (some (n, phase)) e ≡ none)
      ⊎ ((after : StreamPhase) × (advance g (some (n, phase)) e ≡ some (suc n, after))
          × (seq_of e ≡ n)
          × (next_phase phase e ≡ some after))
advance-some g n phase e = elim (Bool-cases ((generation_of e == g) && (seq_of e == n))) [
  | inr no_event ↦ inl (rw no_event refl)
  | inl own ↦ elim (Option-cases (next_phase phase e)) [
    | inl barred ↦ inl (rw (own, barred) refl)
    | inr (after, allowed) ↦
        let (same_g, same_n) = &&-eq_true (generation_of e == g) (seq_of e == n) own in
        inr (after, rw (own, allowed) refl, (==_iff (seq_of e) n).0 same_n, allowed)
  ]
]

abbrev is_closed : StreamPhase → Bool
is_closed StreamPhase.closed = true
is_closed _ = false

closed_by_done :
    (phase after : StreamPhase) (e : StreamEvent)
    → next_phase phase e ≡ some after
    → is_closed after ≡ is_done (to_buffered e)
unfolding next_phase to_buffered event_type_name text_eq
closed_by_done phase after (StreamEvent.meta _ _ _ _) h = ground arith
closed_by_done phase after (StreamEvent.token _ _ _) h = ground arith
closed_by_done phase after (StreamEvent.citation _ _ _ _ _ _ _ _) h = ground arith
closed_by_done phase after (StreamEvent.usage _ _ _ _ _) h = ground arith
closed_by_done phase after (StreamEvent.failure _ _ _ _) h = ground arith
closed_by_done phase after (StreamEvent.done _ _ GenerationStatus.complete) h = ground arith
closed_by_done phase after (StreamEvent.done _ _ GenerationStatus.partial) h = ground arith
closed_by_done phase after (StreamEvent.done _ _ GenerationStatus.cancelled) h = ground arith
closed_by_done phase after (StreamEvent.done _ _ GenerationStatus.error) h = ground arith

-- A reader that went on took the first event.
read_from-first :
    (g : Uuid) (n : ℕ) (place : ℕ × StreamPhase) (phase : StreamPhase) (e : StreamEvent)
    (es : List StreamEvent)
    → read_from g (some (n, phase)) (e ∷ es) ≡ some place
    → (after : StreamPhase) × (seq_of e ≡ n)
      × (next_phase phase e ≡ some after)
      × (read_from g (some (suc n, after)) es ≡ some place)
unfolding read_from
read_from-first g n place phase e es h = elim (advance-some g n phase e) [
  | inl stuck ↦
      let clash : none ≡ some place =
        sym (read_from-none g es) ∙ sym (ap (λ p. read_from g p es) stuck) ∙ h in
      absurd (cc clash)
  | inr (after, taken, number, allowed) ↦
      (after, number, allowed, sym (ap (λ p. read_from g p es) taken) ∙ h)
]

closed_stays : (e : StreamEvent) → next_phase StreamPhase.closed e ≡ none
unfolding next_phase
closed_stays (StreamEvent.meta _ _ _ _) = refl
closed_stays (StreamEvent.token _ _ _) = refl
closed_stays (StreamEvent.citation _ _ _ _ _ _ _ _) = refl
closed_stays (StreamEvent.usage _ _ _ _ _) = refl
closed_stays (StreamEvent.failure _ _ _ _) = refl
closed_stays (StreamEvent.done _ _ _) = refl

is_closed→≡ : (phase : StreamPhase) → is_closed phase ≡ true → phase ≡ StreamPhase.closed
is_closed→≡ phase h = ground arith

-- Nothing follows the end.
closed_last :
    (g : Uuid) (n : ℕ) (place : ℕ × StreamPhase) (phase : StreamPhase) (e : StreamEvent)
    (es : List StreamEvent)
    → is_closed phase ≡ true
    → read_from g (some (n, phase)) (e ∷ es) ≡ some place
    → ⊥
closed_last g n place phase e es closes h =
    let (after, number, allowed, rest) = read_from-first g n place phase e es h in
    let at_end = is_closed→≡ phase closes in
    let clash : none ≡ some after =
      sym (closed_stays e) ∙ sym (ap (λ q. next_phase q e) at_end) ∙ allowed in
    cc clash

pub Reads-IsComplete :
    (g : Uuid) (n m : ℕ) (phase : StreamPhase) (es : List StreamEvent)
    → is_closed phase ≡ false
    → read_from g (some (n, phase)) es ≡ some (m, StreamPhase.closed)
    → IsComplete n (map to_buffered es)
unfolding read_from to_buffered
Reads-IsComplete g n m phase [] starts h =
    let same : phase ≡ StreamPhase.closed = cc h in
    let clash : false ≡ true = sym starts ∙ ap (λ q. is_closed q) same in absurd (cc clash)
Reads-IsComplete g n m phase (e ∷ []) starts h =
    let (after, number, allowed, rest) = read_from-first g n (m, StreamPhase.closed) phase e [] h in
    let same : after ≡ StreamPhase.closed = cc rest in
    let ends = closed_by_done phase after e allowed in
    (number, sym ends ∙ ap (λ q. is_closed q) same)
Reads-IsComplete g n m phase (e ∷ x ∷ es) starts h =
    let place : ℕ × StreamPhase = (m, StreamPhase.closed) in
    let (after, number, allowed, rest) = read_from-first g n place phase e (x ∷ es) h in
    let ends = closed_by_done phase after e allowed in
    elim (Bool-cases (is_closed after)) [
      | inl closes ↦ absurd (closed_last g (suc n) place after x es closes rest)
      | inr goes_on ↦
          (number, sym ends ∙ goes_on, Reads-IsComplete g (suc n) m after (x ∷ es) goes_on rest)
    ]

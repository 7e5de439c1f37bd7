-- ===== src/Streaming/Grammar.antt =====
-- The grammar of the stream that the comment of apps/api/src/aether/domain/streaming.py gives, as
-- an automaton: what a reader of the stream may rely on.
use aether_ai_workspace.Base.{
  ℕ, suc, ◌≡◌, refl, Bool, true, false, ◌&&◌, Option, none, some, List, [], ◌∷◌, ◌++◌, ◌==◌,
  ==_refl, if◌then◌else◌,
}
use aether_ai_workspace.Domain.Entities.{Uuid}
use aether_ai_workspace.Streaming.{GenerationStatus, StreamEvent, generation_of, seq_of}

-- Where a reader is: `failed` remembers that an error event came.
pub data StreamPhase : Type 0 where
  opening streaming : StreamPhase
  citing metered : (failed : Bool) → StreamPhase
  closed : StreamPhase

abbrev pub is_failure : GenerationStatus → Bool
is_failure GenerationStatus.partial = true
is_failure GenerationStatus.error = true
is_failure _ = false

-- `done` reports a failure if and only if an error event came before it.
abbrev pub close : Bool → Bool → Option StreamPhase
close true true = some StreamPhase.closed
close false false = some StreamPhase.closed
close _ _ = none

-- meta, tokens, at most one error, citations, usage, done.
unfoldable pub next_phase : StreamPhase → StreamEvent → Option StreamPhase
next_phase StreamPhase.opening (StreamEvent.meta _ _ _ _) = some StreamPhase.streaming
next_phase StreamPhase.streaming (StreamEvent.token _ _ _) = some StreamPhase.streaming
next_phase StreamPhase.streaming (StreamEvent.failure _ _ _ _) = some (StreamPhase.citing true)
next_phase StreamPhase.streaming (StreamEvent.citation _ _ _ _ _ _ _ _) =
    some (StreamPhase.citing false)
next_phase StreamPhase.streaming (StreamEvent.usage _ _ _ _ _) = some (StreamPhase.metered false)
next_phase (StreamPhase.citing failed) (StreamEvent.citation _ _ _ _ _ _ _ _) =
    some (StreamPhase.citing failed)
next_phase (StreamPhase.citing failed) (StreamEvent.usage _ _ _ _ _) =
    some (StreamPhase.metered failed)
next_phase (StreamPhase.metered failed) (StreamEvent.done _ _ status) =
    close failed (is_failure status)
next_phase _ _ = none

-- One event: it is the generation's, it bears the next number, and the grammar has it here.
abbrev pub advance : Uuid → Option (ℕ × StreamPhase) → StreamEvent → Option (ℕ × StreamPhase)
advance g none e = none
advance g (some (n, phase)) e =
    if (generation_of e == g) && (seq_of e == n)
    then elim (next_phase phase e) [ none ↦ none | some after ↦ some (suc n, after) ]
    else none

unfoldable pub read_from :
    Uuid → Option (ℕ × StreamPhase) → List StreamEvent → Option (ℕ × StreamPhase)
unfolding next_phase generation_of seq_of
read_from g place [] = place
read_from g place (e ∷ es) = read_from g (advance g place e) es

-- A reader that starts at 0 is at that place after the events.
abbrev pub Reads : Uuid → List StreamEvent → ℕ → StreamPhase → Type 0
Reads g es n phase = read_from g (some (0, StreamPhase.opening)) es ≡ some (n, phase)

read_from-append :
    (g : Uuid) (place : Option (ℕ × StreamPhase)) (es : List StreamEvent) (e : StreamEvent)
    → read_from g place (es ++ (e ∷ [])) ≡ advance g (read_from g place es) e
unfolding read_from
read_from-append g place [] e = refl
read_from-append g place (x ∷ es) e = read_from-append g (advance g place x) es e

-- The next event, given by its number.
pub Reads-append :
    (g : Uuid) (es : List StreamEvent) (n : ℕ) (phase after : StreamPhase) (e : StreamEvent)
    → Reads g es n phase
    → generation_of e ≡ g
    → seq_of e ≡ n
    → next_phase phase e ≡ some after
    → Reads g (es ++ (e ∷ [])) (suc n) after
Reads-append g es n phase after e before of_g of_n allowed =
    let moved : advance g (some (n, phase)) e ≡ some (suc n, after) =
      rw (of_g, of_n, ==_refl g, ==_refl n, allowed) refl in
    rw (read_from-append g (some (0, StreamPhase.opening)) es e, before) moved

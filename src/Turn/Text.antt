-- ===== src/Turn/Text.antt =====
-- The text that a stream carries, through the steps of `SendMessage.execute`
-- (apps/api/src/aether/app/chat/send_message.py).
use aether_ai_workspace.Base.{
  ℕ, suc, ◌≡◌, refl, sym, ap, ◌∙◌, Bool, Option, none, some, List, [], ◌∷◌, ◌++◌, append-nil,
  append_assoc, Text, Bool-cases, inl, inr,
}
use aether_ai_workspace.Domain.Entities.{Uuid, Citation}
use aether_ai_workspace.Router.Relay.{GeneratorChunk, text, generation_usage, Exn}
use aether_ai_workspace.Streaming.{StreamEvent}
use aether_ai_workspace.Turn.Store.{ThreadStore}
use aether_ai_workspace.Turn.Ports.{Turn, emit}
use aether_ai_workspace.Turn.Replay.{citation_event, emit_citations}
use aether_ai_workspace.Turn.Generation.{Loop, end_loop, take_chunk, stream_chunks}

unfoldable pub delta_of : StreamEvent → Text
delta_of (StreamEvent.token _ _ delta) = delta
delta_of _ = []

-- The deltas of the token events, joined: what a client shows.
unfoldable pub streamed_text : List StreamEvent → Text
unfolding delta_of
streamed_text [] = []
streamed_text (e ∷ es) = delta_of e ++ streamed_text es

streamed_text-append :
    (es : List StreamEvent) (e : StreamEvent)
    → streamed_text (es ++ (e ∷ [])) ≡ streamed_text es ++ delta_of e
unfolding streamed_text
streamed_text-append [] e = append-nil (delta_of e)
streamed_text-append (x ∷ es) e =
    rw (streamed_text-append es e) (sym (append_assoc (delta_of x) (streamed_text es) (delta_of e)))

pub emit-streamed_text :
    (event : ℕ → StreamEvent) (t : Turn)
    → streamed_text (emit event t).yielded ≡ streamed_text t.yielded ++ delta_of (event t.seq)
unfolding emit
emit-streamed_text event t = streamed_text-append t.yielded (event t.seq)

-- An event without text.
pub emit-silent :
    (event : ℕ → StreamEvent) (t : Turn)
    → delta_of (event t.seq) ≡ []
    → streamed_text (emit event t).yielded ≡ streamed_text t.yielded
emit-silent event t silent =
    emit-streamed_text event t
    ∙ ap (λ d. streamed_text t.yielded ++ d) silent
    ∙ append-nil (streamed_text t.yielded)

-- What the events of a step leave as it was.
pub record Silent (before after : Turn) : Type 0 where
  pub same_text : streamed_text after.yielded ≡ streamed_text before.yielded
  pub same_store : after.store ≡ before.store

pub emit_citations-Silent :
    (g : Uuid) (citations : List Citation) (t : Turn) → Silent t (emit_citations g citations t)
unfolding emit_citations citation_event emit delta_of
emit_citations-Silent g [] t = record { same_text = refl; same_store = refl }
emit_citations-Silent g (c ∷ citations) t =
    let rest = emit_citations-Silent g citations (emit (citation_event g c) t) in
    record {
      same_text = rest.same_text ∙ emit-silent (citation_event g c) t refl;
      same_store = rest.same_store;
    }

-- The loop's text is the stream's, and it writes no row.
pub record Carries (s : ThreadStore) (l : Loop) : Type 0 where
  pub told : streamed_text l.turn.yielded ≡ l.accumulated
  pub same_store : l.turn.store ≡ s

module _ (s : ThreadStore) (is_cancelled : ℕ → Bool) (exn_text : Exn → Text) (g : Uuid) where
  take_chunk-Carries :
      (chunk : GeneratorChunk) (l : Loop) → Carries s l → Carries s (take_chunk g chunk l)
  unfolding take_chunk emit delta_of
  take_chunk-Carries (generation_usage u) l h = record { told = h.told; same_store = h.same_store }
  take_chunk-Carries (text delta) l h = record {
    told =
        emit-streamed_text (λ n. StreamEvent.token g n delta) l.turn ∙ ap (λ x. x ++ delta) h.told;
    same_store = h.same_store;
  }

  end_loop-Carries :
      (i : ℕ) (raised : Option Exn) (l : Loop)
      → Carries s l
      → Carries s (end_loop is_cancelled exn_text g i raised l)
  unfolding end_loop
  end_loop-Carries i (some e) l h = record { told = h.told; same_store = h.same_store }
  end_loop-Carries i none l h = elim (Bool-cases (is_cancelled i)) [
    | inl e ↦ rw e (record { told = h.told; same_store = h.same_store })
    | inr e ↦ rw e h
  ]

  pub stream_chunks-Carries :
      (i : ℕ) (chunks : List GeneratorChunk) (raised : Option Exn) (l : Loop)
      → Carries s l
      → Carries s (stream_chunks is_cancelled exn_text g i chunks raised l)
  unfolding stream_chunks
  stream_chunks-Carries i [] raised l h = end_loop-Carries i raised l h
  stream_chunks-Carries i (chunk ∷ chunks) raised l h = elim (Bool-cases (is_cancelled i)) [
    | inl e ↦ rw e (record { told = h.told; same_store = h.same_store })
    | inr e ↦ rw e (
        stream_chunks-Carries (suc i) chunks raised (take_chunk g chunk l)
          (take_chunk-Carries chunk l h))
  ]

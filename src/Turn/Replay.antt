-- ===== src/Turn/Replay.antt =====
-- `_citation_event` and `_replay_events` of apps/api/src/aether/app/chat/send_message.py
use aether_ai_workspace.Base.{
  ℕ, Option, none, some, List, [], ◌∷◌, Text, codes, if◌then◌else◌, or_else,
}
use aether_ai_workspace.Domain.Entities.{Uuid, Message, Citation}
use aether_ai_workspace.Streaming.{GenerationStatus, StreamEvent}
use aether_ai_workspace.Turn.Store.{ThreadStore, list_citations}
use aether_ai_workspace.Turn.Ports.{Turn, emit}

unfoldable pub citation_event : Uuid → Citation → ℕ → StreamEvent
citation_event generation_id c seq =
    StreamEvent.citation generation_id seq c.id c.chunk_id c.document_title c.section_path
      c.page_start c.page_end

-- `existing_reply.model or "unknown"`: an empty name counts as none.
unfoldable pub model_or_unknown : Option Text → Text
model_or_unknown none = codes "unknown"
model_or_unknown (some []) = codes "unknown"
model_or_unknown (some (c ∷ name)) = c ∷ name

unfoldable pub emit_citations : Uuid → List Citation → Turn → Turn
unfolding emit citation_event
emit_citations generation_id [] t = t
emit_citations generation_id (c ∷ citations) t =
    emit_citations generation_id citations (emit (citation_event generation_id c) t)

-- `_replay_events`, each event yielded with its `seq`.
unfoldable pub replay : Uuid → Message → List Citation → Turn → Turn
unfolding emit emit_citations model_or_unknown
replay generation_id reply citations t =
    let opened =
      emit (λ n. StreamEvent.meta generation_id n (model_or_unknown reply.model) reply.grounded)
        t in
    let told = emit (λ n. StreamEvent.token generation_id n reply.content) opened in
    let cited = emit_citations generation_id citations told in
    let metered =
      emit
        (λ n.
          StreamEvent.usage generation_id n (or_else reply.prompt_tokens 0)
            (or_else reply.completion_tokens 0) (or_else reply.cost_microcents 0))
        cited in
    emit (λ n. StreamEvent.done generation_id n GenerationStatus.complete) metered

-- The citations that a replay reads.
unfoldable pub replayed_citations :
    (List Citation → List Citation) → Uuid → Message → ThreadStore → List Citation
unfolding list_citations
replayed_citations in_some_order w reply s =
    if reply.grounded then list_citations in_some_order w reply.id s else []

-- ===== src/Turn/Generation.antt =====
-- The streaming loop of `SendMessage.execute` and what follows it
-- (apps/api/src/aether/app/chat/send_message.py).
use aether_ai_workspace.Base.{
  ℕ, suc, Bool, true, false, Option, none, some, List, [], ◌∷◌, ◌++◌, Text, codes, ltb,
  if◌then◌else◌,
}
use aether_ai_workspace.Domain.Entities.{
  Uuid, Message, MessageRole, MessageStatus, CitationDraft, UsageEventKind, UsageEvent,
}
use aether_ai_workspace.Metering.{record_usage}
use aether_ai_workspace.Retrieval.Floats.{Floats}
use aether_ai_workspace.Retrieval.Selection.{RankedChunk}
use aether_ai_workspace.Router.Envelope.{RetrievedContextChunk}
use aether_ai_workspace.Router.Relay.{GeneratorChunk, text, generation_usage, Exn, provider_error}
use aether_ai_workspace.Streaming.{GenerationStatus, StreamEvent}
use aether_ai_workspace.Turn.Store.{ThreadStore, citation_rows, persist_with_citations}
use aether_ai_workspace.Turn.Ports.{SendMessageCommand, TurnNames, Turn, emit}
use aether_ai_workspace.Turn.Replay.{emit_citations}

-- The variables of the loop.
pub record Loop : Type 0 where
  pub turn : Turn
  pub accumulated : Text
  pub status : GenerationStatus
  pub error : Option (Text × Text)
  pub final_model : Text
  pub prompt_tokens : ℕ
  pub completion_tokens : ℕ
  pub cost_microcents : ℕ

unfoldable pub start_loop : Text → Turn → Loop
start_loop primary_model t = record {
  turn = t;
  accumulated = [];
  status = GenerationStatus.complete;
  error = none;
  final_model = primary_model;
  prompt_tokens = 0;
  completion_tokens = 0;
  cost_microcents = 0;
}

-- `PARTIAL if accumulated else ERROR`
abbrev pub failed_status : Text → GenerationStatus
failed_status [] = GenerationStatus.error
failed_status (c ∷ accumulated) = GenerationStatus.partial

unfoldable pub error_code : Exn → Text
error_code (provider_error message retryable) = codes "provider_error"
error_code _ = codes "generation_failed"

abbrev pub is_empty : Text → Bool
is_empty [] = true
is_empty (c ∷ t) = false

-- `accumulated == "" and status in (CANCELLED, ERROR)`
unfoldable pub nothing_to_keep : Text → GenerationStatus → Bool
nothing_to_keep accumulated GenerationStatus.cancelled = is_empty accumulated
nothing_to_keep accumulated GenerationStatus.error = is_empty accumulated
nothing_to_keep accumulated _ = false

unfoldable pub assistant_status : GenerationStatus → MessageStatus
assistant_status GenerationStatus.cancelled = MessageStatus.cancelled
assistant_status GenerationStatus.complete = MessageStatus.complete
assistant_status _ = MessageStatus.partial

abbrev cancel : Loop → Loop
cancel l = record l { status = GenerationStatus.cancelled }

module _ (generation_id : Uuid) where
  -- One chunk that is not a cancellation's.
  unfoldable pub take_chunk : GeneratorChunk → Loop → Loop
  unfolding emit
  take_chunk (generation_usage u) l = record l {
    prompt_tokens = u.prompt_tokens;
    completion_tokens = u.completion_tokens;
    cost_microcents = u.cost_microcents;
    final_model = u.model;
  }
  take_chunk (text delta) l = record l {
    turn = emit (λ n. StreamEvent.token generation_id n delta) l.turn;
    accumulated = l.accumulated ++ delta;
  }

  -- The error event, if there is an error.
  unfoldable pub report : Option (Text × Text) → Turn → Turn
  unfolding emit
  report none t = t
  report (some (code, message)) t = emit (λ n. StreamEvent.failure generation_id n code message) t

  unfoldable pub finish : Loop → Turn → Turn
  unfolding emit
  finish l t =
      emit (λ n. StreamEvent.done generation_id n l.status)
        (emit
          (λ n.
            StreamEvent.usage generation_id n l.prompt_tokens l.completion_tokens l.cost_microcents)
          t)

module _ (is_cancelled : ℕ → Bool) (exn_text : Exn → Text) (generation_id : Uuid) where
  -- The end of the generator: the loop's `else`, or its exception.
  unfoldable pub end_loop : ℕ → Option Exn → Loop → Loop
  unfolding error_code
  end_loop i none l = if is_cancelled i then cancel l else l
  end_loop i (some e) l = record l {
    status = failed_status l.accumulated;
    error = some (error_code e, exn_text e);
  }

  unfoldable pub stream_chunks : ℕ → List GeneratorChunk → Option Exn → Loop → Loop
  unfolding end_loop take_chunk
  stream_chunks i [] raised l = end_loop i raised l
  stream_chunks i (chunk ∷ chunks) raised l =
      let rest = stream_chunks (suc i) chunks raised (take_chunk generation_id chunk l) in
      if is_cancelled i then cancel l else rest

module _ (fl : Floats) where
  -- `_to_context_chunk`
  unfoldable pub to_context_chunk : RankedChunk fl → RetrievedContextChunk
  to_context_chunk c = record {
    content = c.content;
    document_title = c.document_title;
    section_path = c.section_path;
  }

  unfoldable pub to_draft : RankedChunk fl → CitationDraft
  to_draft c = record {
    chunk_id = some c.chunk_id;
    document_title = c.document_title;
    section_path = c.section_path;
    page_start = c.page_start;
    page_end = c.page_end;
  }

-- The assistant's message.
unfoldable pub reply_row : SendMessageCommand → TurnNames → Loop → ℕ → Message
unfolding assistant_status
reply_row c names l seq = record {
  id = names.reply_id;
  workspace_id = c.workspace_id;
  thread_id = c.thread_id;
  seq = seq;
  role = MessageRole.assistant;
  content = l.accumulated;
  status = assistant_status l.status;
  client_message_id = none;
  model = some l.final_model;
  prompt_tokens = some l.prompt_tokens;
  completion_tokens = some l.completion_tokens;
  cost_microcents = some l.cost_microcents;
  grounded = true;
  created_at = names.reply_time;
}

-- The event that is settled.
unfoldable pub chat_event : SendMessageCommand → TurnNames → Loop → UsageEvent
chat_event c names l = record {
  id = names.usage_event_id;
  workspace_id = c.workspace_id;
  user_id = none;
  kind = UsageEventKind.chat;
  model = l.final_model;
  prompt_tokens = l.prompt_tokens;
  completion_tokens = l.completion_tokens;
  cost_microcents = l.cost_microcents;
  generation_id = some names.generation_id;
  occurred_at = names.usage_time;
}

-- `if cost_microcents > 0`: the settlement.
unfoldable pub settle_turn : SendMessageCommand → TurnNames → Loop → ThreadStore → ThreadStore
unfolding record_usage chat_event
settle_turn c names l s =
    if ltb 0 l.cost_microcents
    then record s { accounts = record_usage (chat_event c names l) s.accounts }
    else s

-- The reply with its citations, their events, and the settlement.
unfoldable pub keep_reply : SendMessageCommand → TurnNames → List CitationDraft → Loop → Turn → Turn
unfolding reply_row citation_rows persist_with_citations emit_citations settle_turn
keep_reply c names drafts l t =
    let (created, store) =
      persist_with_citations (reply_row c names l)
        (λ m. citation_rows names.new_citation_id names.reply_time c.workspace_id m.id 0 drafts)
        t.store in
    let cited = emit_citations names.generation_id created (record t { store = store }) in
    record cited { store = settle_turn c names l cited.store }

-- All that follows the loop.
unfoldable pub conclude_turn : SendMessageCommand → TurnNames → List CitationDraft → Loop → Turn
unfolding report nothing_to_keep keep_reply finish
conclude_turn c names drafts l =
    let reported = report names.generation_id l.error l.turn in
    let kept = keep_reply c names drafts l reported in
    finish names.generation_id l (if nothing_to_keep l.accumulated l.status then reported else kept)

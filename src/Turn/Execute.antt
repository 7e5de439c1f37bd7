-- ===== src/Turn/Execute.antt =====
-- `SendMessage.execute` of apps/api/src/aether/app/chat/send_message.py
use aether_ai_workspace.Base.{
  ℕ, suc, false, Option, none, some, List, [], ◌∷◌, map, Text, if◌then◌else◌,
}
use aether_ai_workspace.Domain.Entities.{Message, MessageRole, MessageStatus}
use aether_ai_workspace.Memory.{MemoryContext}
use aether_ai_workspace.Memory.Assemble.{Compaction, assemble}
use aether_ai_workspace.Metering.{AdmissionDecision, check, check_global}
use aether_ai_workspace.Retrieval.Floats.{Floats}
use aether_ai_workspace.Retrieval.Selection.{RankedChunk}
use aether_ai_workspace.Retrieval.Search.{
  build_dual_feed_query, RetrievalResult, search, default_k, evaluate,
}
use aether_ai_workspace.Streaming.{GenerationStatus, StreamEvent}
use aether_ai_workspace.Turn.Store.{ThreadStore, create, find_by_client_message_id, find_by_seq}
use aether_ai_workspace.Turn.Ports.{
  not_in_knowledge_base_reply, SendMessageCommand, TurnNames, SendMessage, Turn, emit,
  ceiling_microcents,
}
use aether_ai_workspace.Turn.Replay.{replay, replayed_citations}
use aether_ai_workspace.Turn.Generation.{
  start_loop, stream_chunks, to_context_chunk, to_draft, conclude_turn,
}

-- How an execution ends: it returns, or one of its exceptions leaves it.
pub data TurnEnd : Type 0 where
  returned : TurnEnd
  global_budget_exhausted : TurnEnd
  workspace_budget_exhausted : (settled_microcents monthly_limit_microcents : ℕ) → TurnEnd
  retrieval_failed : TurnEnd

pub record TurnRun : Type 0 where
  pub turn : Turn
  pub ended : TurnEnd

unfoldable pub start_turn : ThreadStore → Turn
start_turn s = record { store = s; buffer = []; yielded = []; seq = 0 }

-- `history[:-1]`
unfoldable pub but_last : List Message → List Message
but_last [] = []
but_last (m ∷ []) = []
but_last (m ∷ n ∷ ms) = m ∷ but_last (n ∷ ms)

unfoldable pub user_row : SendMessageCommand → TurnNames → ℕ → Message
user_row c names seq = record {
  id = names.user_message_id;
  workspace_id = c.workspace_id;
  thread_id = c.thread_id;
  seq = seq;
  role = MessageRole.user;
  content = c.content;
  status = MessageStatus.complete;
  client_message_id = some c.client_message_id;
  model = none;
  prompt_tokens = none;
  completion_tokens = none;
  cost_microcents = none;
  grounded = false;
  created_at = names.user_time;
}

-- The canned refusal.
unfoldable pub refusal_row : Text → SendMessageCommand → TurnNames → ℕ → Message
refusal_row primary_model c names seq = record {
  id = names.reply_id;
  workspace_id = c.workspace_id;
  thread_id = c.thread_id;
  seq = seq;
  role = MessageRole.assistant;
  content = not_in_knowledge_base_reply;
  status = MessageStatus.complete;
  client_message_id = none;
  model = some primary_model;
  prompt_tokens = some 0;
  completion_tokens = some 0;
  cost_microcents = some 0;
  grounded = false;
  created_at = names.reply_time;
}

-- `if not grounded`
unfoldable pub refuse : Text → SendMessageCommand → TurnNames → Turn → Turn
unfolding emit create refusal_row
refuse primary_model c names t =
    let g = names.generation_id in
    let told = emit (λ n. StreamEvent.token g n not_in_knowledge_base_reply) t in
    let (reply, store) = create (refusal_row primary_model c names) told.store in
    emit (λ n. StreamEvent.done g n GenerationStatus.complete)
      (emit (λ n. StreamEvent.usage g n 0 0 0) (record told { store = store }))

module _ (fl : Floats) (p : SendMessage fl) (c : SendMessageCommand) (names : TurnNames) where
  -- The generation with the chunks that were retrieved.
  unfoldable pub generate_reply : List (RankedChunk fl) → MemoryContext → Turn → Turn
  unfolding start_loop stream_chunks to_context_chunk to_draft conclude_turn
  generate_reply chunks memory t =
      let run =
        p.generator.generate memory.window c.content
          (record { chunks = map (to_context_chunk fl) chunks }) memory.summary in
      conclude_turn c names (map (to_draft fl) chunks) (
        stream_chunks p.is_cancelled p.exn_text names.generation_id 0 run.chunks run.raised
          (start_loop p.generator.primary_model t))

  -- What follows the retrieval.
  unfoldable pub answer : Option (RetrievalResult fl) → MemoryContext → ThreadStore → TurnRun
  unfolding emit refuse generate_reply evaluate start_turn
  answer none memory s = record { turn = start_turn s; ended = TurnEnd.retrieval_failed }
  answer (some result) memory s =
      let grounded = (evaluate fl p.threshold result.chunks).passed in
      let opened =
        emit (λ n. StreamEvent.meta names.generation_id n p.generator.primary_model grounded)
          (start_turn s) in
      record {
        turn =
            if grounded
            then generate_reply result.chunks memory opened
            else refuse p.generator.primary_model c names opened;
        ended = TurnEnd.returned;
      }

  -- The turn from the memory on.
  unfoldable pub run_turn : ThreadStore → TurnRun
  unfolding assemble but_last build_dual_feed_query search answer
  run_turn s =
      let compaction : Compaction = record p.compaction {
        workspace_id = c.workspace_id;
        thread_id = c.thread_id;
      } in
      let (memory, summary) = assemble p.count_tokens compaction s.messages s.summary in
      let query = build_dual_feed_query p.rewrite (but_last memory.window) c.content in
      answer
        (search fl p.search_ports c.workspace_id query.vector_query (some query.lexical_queries)
          default_k)
        memory (record s { summary = summary })

  unfoldable pub admit_workspace : AdmissionDecision → ThreadStore → TurnRun
  unfolding create user_row run_turn start_turn
  admit_workspace d s = if d.allowed then run_turn (create (user_row c names) s).1 else record {
    turn = start_turn s;
    ended = TurnEnd.workspace_budget_exhausted d.settled_microcents d.monthly_limit_microcents;
  }

  -- A new turn: both budgets, then the user's message.
  unfoldable pub admit : ThreadStore → TurnRun
  unfolding ceiling_microcents check_global check admit_workspace start_turn
  admit s =
      let ceiling = ceiling_microcents p.max_tokens p.ceiling_cost_per_1k_microcents c.content in
      if check_global p.global_monthly_budget_microcents ceiling s.accounts
      then admit_workspace (check c.workspace_id ceiling s.accounts) s
      else record { turn = start_turn s; ended = TurnEnd.global_budget_exhausted }

  -- A retried request: its reply again, or the rest of the turn if there is none.
  unfoldable pub retry : Option Message → ThreadStore → TurnRun
  unfolding replay replayed_citations run_turn start_turn
  retry none s = run_turn s
  retry (some reply) s = record {
    turn =
        replay names.generation_id reply (replayed_citations p.in_some_order c.workspace_id reply s)
          (start_turn s);
    ended = TurnEnd.returned;
  }

  unfoldable pub dispatch : Option Message → ThreadStore → TurnRun
  unfolding find_by_seq admit retry
  dispatch none s = admit s
  dispatch (some user) s = retry (find_by_seq (suc user.seq) s) s

  unfoldable pub execute : ThreadStore → TurnRun
  unfolding find_by_client_message_id dispatch
  execute s = dispatch (find_by_client_message_id c.client_message_id s) s

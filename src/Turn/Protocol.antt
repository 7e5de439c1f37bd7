-- ===== src/Turn/Protocol.antt =====
-- The stream of `SendMessage.execute` (apps/api/src/aether/app/chat/send_message.py) against the
-- grammar of its events.
use aether_ai_workspace.Base.{
  arith, ℕ, suc, ◌≡◌, refl, ◌⊎◌, inl, inr, ◌≢◌, Bool, true, false, Option, none, some, List, [],
  map, Text, Bool-cases, Option-cases, or_else,
}
use aether_ai_workspace.Domain.Entities.{Uuid, Message, Citation}
use aether_ai_workspace.Memory.{MemoryContext}
use aether_ai_workspace.Retrieval.Floats.{Floats}
use aether_ai_workspace.Retrieval.Selection.{RankedChunk}
use aether_ai_workspace.Retrieval.Search.{evaluate, RetrievalResult}
use aether_ai_workspace.Streaming.{GenerationStatus, StreamEvent, generation_of, seq_of}
use aether_ai_workspace.Streaming.Grammar.{StreamPhase, next_phase, read_from}
use aether_ai_workspace.Metering.{check, check_global}
use aether_ai_workspace.Turn.Store.{ThreadStore, find_by_seq, create}
use aether_ai_workspace.Turn.Ports.{
  ceiling_microcents, not_in_knowledge_base_reply, SendMessageCommand, TurnNames, SendMessage, Turn,
  emit,
}
use aether_ai_workspace.Turn.Replay.{emit_citations, replay, replayed_citations, model_or_unknown}
use aether_ai_workspace.Turn.Generation.{start_loop, stream_chunks, to_context_chunk, to_draft}
use aether_ai_workspace.Turn.Execute.{
  TurnEnd, TurnRun, start_turn, user_row, refusal_row, refuse, generate_reply, answer, run_turn,
  admit_workspace, admit, retry, dispatch, execute,
}
use aether_ai_workspace.Turn.Reader.{At, emit-At, emit_citations-At, ending-At}
use aether_ai_workspace.Turn.Loops.{stream_chunks-Streamed, conclude_turn-At}

start-At : (g : Uuid) (s : ThreadStore) → At g StreamPhase.opening (start_turn s)
unfolding start_turn read_from
start-At g s = record { reads = refl; buffered = refl }

refuse-At :
    (model : Text) (c : SendMessageCommand) (names : TurnNames) (t : Turn)
    → At names.generation_id StreamPhase.streaming t
    → At names.generation_id StreamPhase.closed (refuse model c names t)
unfolding refuse generation_of seq_of next_phase
refuse-At model c names t h =
    let g = names.generation_id in
    let event : ℕ → StreamEvent = λ n. StreamEvent.token g n not_in_knowledge_base_reply in
    let told = emit-At g StreamPhase.streaming StreamPhase.streaming event t refl refl refl h in
    let after = record (emit event t) {
      store = (create (refusal_row model c names) (emit event t).store).1;
    } in
    ending-At g 0 0 0 GenerationStatus.complete false StreamPhase.streaming after (inr (refl, refl))
      refl (record { reads = told.reads; buffered = told.buffered })

replay-At :
    (g : Uuid) (reply : Message) (citations : List Citation) (s : ThreadStore)
    → At g StreamPhase.closed (replay g reply citations (start_turn s))
unfolding replay generation_of seq_of next_phase
replay-At g reply citations s =
    let meta_event : ℕ → StreamEvent =
      λ n. StreamEvent.meta g n (model_or_unknown reply.model) reply.grounded in
    let token_event : ℕ → StreamEvent = λ n. StreamEvent.token g n reply.content in
    let opened = emit meta_event (start_turn s) in
    let told = emit token_event opened in
    let (after, cites, cited) =
      emit_citations-At g false citations StreamPhase.streaming told (inr (refl, refl)) (
        emit-At g StreamPhase.streaming StreamPhase.streaming token_event opened refl refl refl (
          emit-At g StreamPhase.opening StreamPhase.streaming meta_event (start_turn s) refl refl
            refl (start-At g s))) in
    ending-At g (or_else reply.prompt_tokens 0) (or_else reply.completion_tokens 0)
      (or_else reply.cost_microcents 0) GenerationStatus.complete false after
      (emit_citations g citations told) cites refl cited

-- A turn that returns has been read to the end; one that raises has yielded nothing.
abbrev pub Follows : Uuid → TurnRun → Type 0
Follows g run =
    ((run.ended ≡ TurnEnd.returned) × At g StreamPhase.closed run.turn)
    ⊎ ((run.ended ≢ TurnEnd.returned) × (run.turn.yielded ≡ []) × (run.turn.buffer ≡ []))

module _ (fl : Floats) (p : SendMessage fl) (c : SendMessageCommand) (names : TurnNames) where
  generate_reply-At :
      (chunks : List (RankedChunk fl)) (memory : MemoryContext) (t : Turn)
      → At names.generation_id StreamPhase.streaming t
      → At names.generation_id StreamPhase.closed (generate_reply fl p c names chunks memory t)
  unfolding generate_reply start_loop
  generate_reply-At chunks memory t h =
      let run =
        p.generator.generate memory.window c.content
          (record { chunks = map (to_context_chunk fl) chunks }) memory.summary in
      conclude_turn-At c names (map (to_draft fl) chunks)
        (stream_chunks p.is_cancelled p.exn_text names.generation_id 0 run.chunks run.raised
          (start_loop p.generator.primary_model t))
        (stream_chunks-Streamed p.is_cancelled p.exn_text names.generation_id 0 run.chunks
          run.raised (start_loop p.generator.primary_model t) (refl, refl, h))

  answer-Follows :
      (result : Option (RetrievalResult fl)) (memory : MemoryContext) (s : ThreadStore)
      → Follows names.generation_id (answer fl p c names result memory s)
  unfolding answer start_turn generation_of seq_of next_phase
  answer-Follows none memory s = inr (ground arith, refl, refl)
  answer-Follows (some result) memory s =
      let opened-At : (grounded : Bool)
          → At names.generation_id StreamPhase.streaming (
              emit (λ n. StreamEvent.meta names.generation_id n p.generator.primary_model grounded)
                (start_turn s)) =
        λ grounded.
          emit-At names.generation_id StreamPhase.opening StreamPhase.streaming
            (λ n. StreamEvent.meta names.generation_id n p.generator.primary_model grounded)
            (start_turn s) refl refl refl (start-At names.generation_id s) in
      elim (Bool-cases ((evaluate fl p.threshold result.chunks).passed)) [
        | inl e ↦ inl (refl, rw e (generate_reply-At result.chunks memory _ (opened-At true)))
        | inr e ↦ inl (refl, rw e (refuse-At p.generator.primary_model c names _ (opened-At false)))
      ]

  run_turn-Follows : (s : ThreadStore) → Follows names.generation_id (run_turn fl p c names s)
  unfolding run_turn
  run_turn-Follows s = answer-Follows _ _ _

  refused-Follows :
      (ended : TurnEnd) (s : ThreadStore)
      → ended ≢ TurnEnd.returned
      → Follows names.generation_id (record { turn = start_turn s; ended = ended })
  unfolding start_turn
  refused-Follows ended s h = inr (h, refl, refl)

  admit-Follows : (s : ThreadStore) → Follows names.generation_id (admit fl p c names s)
  unfolding admit admit_workspace
  admit-Follows s =
      let ceiling = ceiling_microcents p.max_tokens p.ceiling_cost_per_1k_microcents c.content in
      let d = check c.workspace_id ceiling s.accounts in
      elim (Bool-cases (check_global p.global_monthly_budget_microcents ceiling s.accounts)) [
        | inr e ↦ rw e (refused-Follows TurnEnd.global_budget_exhausted s (ground arith))
        | inl e ↦ elim (Bool-cases d.allowed) [
          | inl e' ↦ rw (e, e') (run_turn-Follows (create (user_row c names) s).1)
          | inr e' ↦
              rw (e, e')
                (refused-Follows
                  (TurnEnd.workspace_budget_exhausted d.settled_microcents
                    d.monthly_limit_microcents)
                  s (ground arith))
        ]
      ]

  dispatch-Follows :
      (found : Option Message) (s : ThreadStore)
      → Follows names.generation_id (dispatch fl p c names found s)
  unfolding dispatch retry
  dispatch-Follows none s = admit-Follows s
  dispatch-Follows (some asked) s = elim (Option-cases (find_by_seq (suc asked.seq) s)) [
    | inl e ↦ rw e (run_turn-Follows s)
    | inr (reply, e) ↦ rw e (
        inl (
          refl,
          replay-At names.generation_id reply
              (replayed_citations p.in_some_order c.workspace_id reply s) s,
        ))
  ]

-- Whatever the store, the ports and the request are: an execution that returns has yielded the
-- events of one generation, numbered from 0 without a gap, in the order of the grammar and to its
-- end, with an error reported at `done` if and only if an error event came; one that raises has
-- yielded none. The buffer holds exactly the events that were yielded, in that order.
pub execute-Follows :
    (fl : Floats) (p : SendMessage fl) (c : SendMessageCommand) (names : TurnNames)
    (s : ThreadStore)
    → Follows names.generation_id (execute fl p c names s)
unfolding execute
execute-Follows fl p c names s = dispatch-Follows fl p c names _ s

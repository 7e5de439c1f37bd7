-- ===== src/Turn/Outcome.antt =====
-- What an execution leaves in its thread, on every path
-- (apps/api/src/aether/app/chat/send_message.py).
use aether_ai_workspace.Base.{
  arith, ℕ, ◌≡◌, ◌≢◌, ◌⊎◌, inl, inr, refl, sym, ap, ◌∙◌, Bool, true, false, Option, none, some,
  List, [], ◌++◌, map, Text, Bool-cases, or_else,
}
use aether_ai_workspace.Domain.Entities.{MemorySummary}
use aether_ai_workspace.Memory.{MemoryContext}
use aether_ai_workspace.Metering.{check, check_global}
use aether_ai_workspace.Retrieval.Floats.{Floats}
use aether_ai_workspace.Retrieval.Selection.{RankedChunk}
use aether_ai_workspace.Retrieval.Search.{RetrievalResult, evaluate}
use aether_ai_workspace.Streaming.{GenerationStatus, StreamEvent}
use aether_ai_workspace.Turn.Store.{ThreadStore, create}
use aether_ai_workspace.Turn.Ports.{
  not_in_knowledge_base_reply, ceiling_microcents, SendMessageCommand, TurnNames, SendMessage, Turn,
  emit,
}
use aether_ai_workspace.Turn.Generation.{start_loop, stream_chunks, to_draft, to_context_chunk}
use aether_ai_workspace.Turn.Execute.{
  TurnEnd, TurnRun, start_turn, user_row, refusal_row, refuse, generate_reply, answer, run_turn,
  admit_workspace, admit,
}
use aether_ai_workspace.Turn.Text.{
  delta_of, streamed_text, emit-streamed_text, emit-silent, stream_chunks-Carries,
}
use aether_ai_workspace.Turn.Kept.{KeepsReply, KeepsNothing, conclude_turn-keeps}

-- The turn of an asked question: its reply is kept, or nothing was said.
abbrev pub Keeps : ThreadStore → Turn → Type 0
Keeps s t = KeepsReply s t ⊎ KeepsNothing s t

-- The summary that the memory stores is none of the thread's messages.
before_summary :
    (s : ThreadStore) (row : Option MemorySummary) (t : Turn)
    → Keeps (record s { summary = row }) t
    → Keeps s t
before_summary s row t (inl k) = inl (record {
  reply = k.reply;
  added = k.added;
  is_streamed = k.is_streamed;
  by_assistant = k.by_assistant;
  unnamed = k.unnamed;
  numbered = k.numbered;
  counted = k.counted;
})
before_summary s row t (inr k) = inr (record {
  same_messages = k.same_messages;
  same_counter = k.same_counter;
  is_silent = k.is_silent;
})

refuse-KeepsReply :
    (model : Text) (c : SendMessageCommand) (names : TurnNames) (t : Turn)
    → streamed_text t.yielded ≡ []
    → KeepsReply t.store (refuse model c names t)
unfolding refuse create refusal_row emit delta_of
refuse-KeepsReply model c names t silent =
    let g = names.generation_id in
    let event : ℕ → StreamEvent = λ n. StreamEvent.token g n not_in_knowledge_base_reply in
    let told = emit event t in
    let metered = emit (λ n. StreamEvent.usage g n 0 0 0) told in
    let text_of : streamed_text (refuse model c names t).yielded ≡ not_in_knowledge_base_reply =
      emit-silent (λ n. StreamEvent.done g n GenerationStatus.complete) metered refl
      ∙ emit-silent (λ n. StreamEvent.usage g n 0 0 0) told refl
      ∙ emit-streamed_text event t
      ∙ ap (λ x. x ++ not_in_knowledge_base_reply) silent in
    record {
      reply = refusal_row model c names (or_else t.store.next_seq 1);
      added = refl;
      is_streamed = sym text_of;
      by_assistant = refl;
      unnamed = refl;
      numbered = refl;
      counted = refl;
    }

module _ (fl : Floats) (p : SendMessage fl) (c : SendMessageCommand) (names : TurnNames) where
  generate_reply-Keeps :
      (chunks : List (RankedChunk fl)) (memory : MemoryContext) (t : Turn)
      → streamed_text t.yielded ≡ []
      → Keeps t.store (generate_reply fl p c names chunks memory t)
  unfolding generate_reply start_loop
  generate_reply-Keeps chunks memory t silent =
      let run =
        p.generator.generate memory.window c.content
          (record { chunks = map (to_context_chunk fl) chunks }) memory.summary in
      conclude_turn-keeps c names (map (to_draft fl) chunks)
        (stream_chunks p.is_cancelled p.exn_text names.generation_id 0 run.chunks run.raised
          (start_loop p.generator.primary_model t))
        t.store
        (stream_chunks-Carries t.store p.is_cancelled p.exn_text names.generation_id 0 run.chunks
          run.raised (start_loop p.generator.primary_model t)
          (record { told = silent; same_store = refl }))

  pub answer-Keeps :
      (result : Option (RetrievalResult fl)) (memory : MemoryContext) (s : ThreadStore)
      → Keeps s (answer fl p c names result memory s).turn
  unfolding answer start_turn streamed_text delta_of
  answer-Keeps none memory s =
      inr (record { same_messages = refl; same_counter = refl; is_silent = refl })
  answer-Keeps (some result) memory s =
      let opened : Bool → Turn = λ grounded.
        emit (λ n. StreamEvent.meta names.generation_id n p.generator.primary_model grounded)
          (start_turn s) in
      let silent : (grounded : Bool) → streamed_text (opened grounded).yielded ≡ [] = λ grounded.
        emit-silent (λ n. StreamEvent.meta names.generation_id n p.generator.primary_model grounded)
          (start_turn s) refl in
      elim (Bool-cases ((evaluate fl p.threshold result.chunks).passed)) [
        | inl e ↦ rw e (generate_reply-Keeps result.chunks memory (opened true) (silent true))
        | inr e ↦ rw e (
            inl (refuse-KeepsReply p.generator.primary_model c names (opened false) (silent false)))
      ]

  pub run_turn-Keeps : (s : ThreadStore) → Keeps s (run_turn fl p c names s).turn
  unfolding run_turn
  run_turn-Keeps s = before_summary s _ _ (answer-Keeps _ _ _)

  -- A refused turn writes and says nothing.
  abbrev pub Refused : ThreadStore → TurnRun → Type 0
  Refused s run = (run.ended ≢ TurnEnd.returned) × (run.turn.store ≡ s) × (run.turn.yielded ≡ [])

  -- A new request is refused, or its question is the thread's next message and the turn keeps its
  -- reply behind it.
  pub admit-Keeps :
      (s : ThreadStore)
      → Refused s (admit fl p c names s)
        ⊎ Keeps (create (user_row c names) s).1 (admit fl p c names s).turn
  unfolding admit admit_workspace start_turn
  admit-Keeps s =
      let ceiling = ceiling_microcents p.max_tokens p.ceiling_cost_per_1k_microcents c.content in
      let d = check c.workspace_id ceiling s.accounts in
      elim (Bool-cases (check_global p.global_monthly_budget_microcents ceiling s.accounts)) [
        | inr e ↦ rw e (inl (ground arith, refl, refl))
        | inl e ↦ elim (Bool-cases d.allowed) [
          | inl e' ↦ rw (e, e') (inr (run_turn-Keeps (create (user_row c names) s).1))
          | inr e' ↦ rw (e, e') (inl (ground arith, refl, refl))
        ]
      ]

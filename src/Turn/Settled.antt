-- ===== src/Turn/Settled.antt =====
-- What a turn settles, against the cost that its stream reports
-- (apps/api/src/aether/app/chat/send_message.py).
use aether_ai_workspace.Base.{
  arith, ◌<◌, ◌≡◌, ◌⊎◌, inl, inr, refl, ap, ◌∙◌, Bool, true, Option, none, some, List, [], map, ltb,
  ltb→lt, Bool-cases,
}
use aether_ai_workspace.Domain.Entities.{CitationDraft, UsageEvent, MemorySummary}
use aether_ai_workspace.Memory.{MemoryContext}
use aether_ai_workspace.Metering.{record_usage}
use aether_ai_workspace.Retrieval.Floats.{Floats}
use aether_ai_workspace.Retrieval.Selection.{RankedChunk}
use aether_ai_workspace.Retrieval.Search.{RetrievalResult, evaluate}
use aether_ai_workspace.Streaming.{StreamEvent}
use aether_ai_workspace.Turn.Store.{ThreadStore, create, persist_with_citations, citation_rows}
use aether_ai_workspace.Turn.Ports.{SendMessageCommand, TurnNames, SendMessage, Turn, emit}
use aether_ai_workspace.Turn.Generation.{
  Loop, report, start_loop, stream_chunks, nothing_to_keep, reply_row, settle_turn, keep_reply,
  conclude_turn, to_draft, to_context_chunk, chat_event,
}
use aether_ai_workspace.Turn.Execute.{start_turn, refuse, generate_reply, answer, run_turn}
use aether_ai_workspace.Turn.Text.{
  streamed_text, emit_citations-Silent, Carries, stream_chunks-Carries, delta_of,
}
use aether_ai_workspace.Turn.Kept.{report-Silent, finish-Silent, nothing_to_keep-empty}
use aether_ai_workspace.Turn.Costs.{
  cost_of, reported_cost, emit_citations-free, report-free, finish-costs, stream_chunks-free,
}

-- One event of the workspace and the generation was settled, and its cost is the reported one.
pub record SettlesOnce (c : SendMessageCommand) (names : TurnNames) (s : ThreadStore) (t : Turn)
    : Type 0 where
  pub event : UsageEvent
  pub settled : t.store.accounts ≡ record_usage event s.accounts
  pub reported : event.cost_microcents ≡ reported_cost t.yielded
  pub costs : 0 < event.cost_microcents
  pub of_workspace : event.workspace_id ≡ c.workspace_id
  pub of_generation : event.generation_id ≡ some names.generation_id

-- No account changed: nothing was reported, or no text was streamed.
pub record SettlesNothing (s : ThreadStore) (t : Turn) : Type 0 where
  pub same_accounts : t.store.accounts ≡ s.accounts
  pub free_or_silent : (reported_cost t.yielded ≡ 0) ⊎ (streamed_text t.yielded ≡ [])

abbrev pub Settles : SendMessageCommand → TurnNames → ThreadStore → Turn → Type 0
Settles c names s t = SettlesOnce c names s t ⊎ SettlesNothing s t

module _ (c : SendMessageCommand) (names : TurnNames) (drafts : List CitationDraft) (l : Loop) where
  -- The settlement, of the accounts in front of it.
  keep_reply-settles :
      (t : Turn)
      → ((keep_reply c names drafts l t).store.accounts ≡ (settle_turn c names l t.store).accounts)
        × (reported_cost (keep_reply c names drafts l t).yielded ≡ reported_cost t.yielded)
  unfolding keep_reply persist_with_citations create settle_turn
  keep_reply-settles t =
      let g = names.generation_id in
      let (created, store) =
        persist_with_citations (reply_row c names l)
          (λ m. citation_rows names.new_citation_id names.reply_time c.workspace_id m.id 0 drafts)
          t.store in
      let persisted = record t { store = store } in
      let silent = emit_citations-Silent g created persisted in
      let free = emit_citations-free g created persisted in
      elim (Bool-cases (ltb 0 l.cost_microcents)) [
        | inl e ↦
            rw e (ap (λ x. record_usage (chat_event c names l) x.accounts) silent.same_store, free)
        | inr e ↦ rw e (ap (λ x. x.accounts) silent.same_store, free)
      ]

  conclude_turn-Settles :
      (s : ThreadStore)
      → Carries s l
      → reported_cost l.turn.yielded ≡ 0
      → Settles c names s (conclude_turn c names drafts l)
  unfolding conclude_turn settle_turn chat_event
  conclude_turn-Settles s h free =
      let g = names.generation_id in
      let reported = report g l.error l.turn in
      let silent = report-Silent g l.error l.turn in
      let told : streamed_text reported.yielded ≡ l.accumulated = silent.same_text ∙ h.told in
      let same : reported.store ≡ s = silent.same_store ∙ h.same_store in
      let unpaid : reported_cost reported.yielded ≡ 0 = report-free g l.error l.turn ∙ free in
      let kept = keep_reply c names drafts l reported in
      let (settled, as_reported) = keep_reply-settles reported in
      let total = finish-costs g l kept in
      let last = (finish-Silent g l kept).same_store in
      elim (Bool-cases (nothing_to_keep l.accumulated l.status)) [
        | inl e ↦
            let end = finish-Silent g l reported in
            rw e (
              inr (record {
                same_accounts = ap (λ x. x.accounts) (end.same_store ∙ same);
                free_or_silent =
                    inr (end.same_text ∙ told ∙ nothing_to_keep-empty l.accumulated l.status e);
              }))
        | inr e ↦ elim (Bool-cases (ltb 0 l.cost_microcents)) [
          | inl paid ↦ rw e (
              inl (record {
                event = chat_event c names l;
                settled =
                    ap (λ x. x.accounts) last
                    ∙ settled
                    ∙ rw paid (ap (λ x. record_usage (chat_event c names l) x.accounts) same);
                reported = omega arith;
                costs = ltb→lt 0 l.cost_microcents paid;
                of_workspace = refl;
                of_generation = refl;
              }))
          | inr not_paid ↦ rw e (
              inr (record {
                same_accounts =
                    ap (λ x. x.accounts) last ∙ settled ∙ rw not_paid (ap (λ x. x.accounts) same);
                free_or_silent = inl (ground arith);
              }))
        ]
      ]

module _ (fl : Floats) (p : SendMessage fl) (c : SendMessageCommand) (names : TurnNames) where
  generate_reply-Settles :
      (chunks : List (RankedChunk fl)) (memory : MemoryContext) (t : Turn)
      → streamed_text t.yielded ≡ []
      → reported_cost t.yielded ≡ 0
      → Settles c names t.store (generate_reply fl p c names chunks memory t)
  unfolding generate_reply start_loop
  generate_reply-Settles chunks memory t silent free =
      let run =
        p.generator.generate memory.window c.content
          (record { chunks = map (to_context_chunk fl) chunks }) memory.summary in
      let start = start_loop p.generator.primary_model t in
      conclude_turn-Settles c names (map (to_draft fl) chunks)
        (stream_chunks p.is_cancelled p.exn_text names.generation_id 0 run.chunks run.raised start)
        t.store
        (stream_chunks-Carries t.store p.is_cancelled p.exn_text names.generation_id 0 run.chunks
          run.raised start (record { told = silent; same_store = refl }))
        (stream_chunks-free p.is_cancelled p.exn_text names.generation_id 0 run.chunks run.raised
            start
          ∙ free)

  answer-Settles :
      (result : Option (RetrievalResult fl)) (memory : MemoryContext) (s : ThreadStore)
      → Settles c names s (answer fl p c names result memory s).turn
  unfolding answer start_turn streamed_text delta_of cost_of reported_cost refuse create emit
  answer-Settles none memory s = inr (record { same_accounts = refl; free_or_silent = inl refl })
  answer-Settles (some result) memory s =
      let opened : Bool → Turn = λ grounded.
        emit (λ n. StreamEvent.meta names.generation_id n p.generator.primary_model grounded)
          (start_turn s) in
      elim (Bool-cases ((evaluate fl p.threshold result.chunks).passed)) [
        | inl e ↦ rw e (generate_reply-Settles result.chunks memory (opened true) refl refl)
        | inr e ↦ rw e (inr (record { same_accounts = refl; free_or_silent = inl refl }))
      ]

-- The summary that the memory stores is no account.
before_summary :
    (c : SendMessageCommand) (names : TurnNames) (s : ThreadStore) (row : Option MemorySummary)
    (t : Turn)
    → Settles c names (record s { summary = row }) t
    → Settles c names s t
before_summary c names s row t (inl k) = inl (record {
  event = k.event;
  settled = k.settled;
  reported = k.reported;
  costs = k.costs;
  of_workspace = k.of_workspace;
  of_generation = k.of_generation;
})
before_summary c names s row t (inr k) =
    inr (record { same_accounts = k.same_accounts; free_or_silent = k.free_or_silent })

-- Whatever a turn that asks the generator does, or one that has to refuse: it settles one event, of
-- its workspace and generation, whose cost is positive and is the cost that the stream reports; or
-- it settles none, and then the stream reports no cost or carries no text.
pub run_turn-Settles :
    (fl : Floats) (p : SendMessage fl) (c : SendMessageCommand) (names : TurnNames)
    (s : ThreadStore)
    → Settles c names s (run_turn fl p c names s).turn
unfolding run_turn
run_turn-Settles fl p c names s = before_summary c names s _ _ (answer-Settles fl p c names _ _ _)

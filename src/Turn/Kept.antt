-- ===== src/Turn/Kept.antt =====
-- What a turn leaves in its thread (apps/api/src/aether/app/chat/send_message.py).
use aether_ai_workspace.Base.{
  arith, ltb, ℕ, suc, ◌≡◌, ◌⊎◌, inl, inr, refl, sym, ap, ◌∙◌, true, Option, none, some, List, [],
  ◌∷◌, ◌++◌, Text, Bool-cases, or_else,
}
use aether_ai_workspace.Domain.Entities.{Uuid, Message, MessageRole, CitationDraft}
use aether_ai_workspace.Streaming.{GenerationStatus, StreamEvent}
use aether_ai_workspace.Turn.Store.{ThreadStore, create, persist_with_citations, citation_rows}
use aether_ai_workspace.Turn.Ports.{SendMessageCommand, TurnNames, Turn, emit}
use aether_ai_workspace.Turn.Replay.{emit_citations}
use aether_ai_workspace.Turn.Generation.{
  Loop, report, nothing_to_keep, reply_row, settle_turn, keep_reply, finish, conclude_turn,
}
use aether_ai_workspace.Turn.Text.{
  delta_of, streamed_text, emit-silent, Silent, emit_citations-Silent, Carries,
}

-- One message was added: the assistant's, with the text that was streamed and the thread's next
-- number.
pub record KeepsReply (s : ThreadStore) (t : Turn) : Type 0 where
  pub reply : Message
  pub added : t.store.messages ≡ s.messages ++ (reply ∷ [])
  pub is_streamed : reply.content ≡ streamed_text t.yielded
  pub by_assistant : reply.role ≡ MessageRole.assistant
  pub unnamed : reply.client_message_id ≡ none
  pub numbered : reply.seq ≡ or_else s.next_seq 1
  pub counted : t.store.next_seq ≡ some (suc reply.seq)

-- No message was added, and no text was streamed.
pub record KeepsNothing (s : ThreadStore) (t : Turn) : Type 0 where
  pub same_messages : t.store.messages ≡ s.messages
  pub same_counter : t.store.next_seq ≡ s.next_seq
  pub is_silent : streamed_text t.yielded ≡ []

settle_turn-messages :
    (c : SendMessageCommand) (names : TurnNames) (l : Loop) (s : ThreadStore)
    → ((settle_turn c names l s).messages ≡ s.messages)
      × ((settle_turn c names l s).next_seq ≡ s.next_seq)
unfolding settle_turn
settle_turn-messages c names l s = elim (Bool-cases (ltb 0 l.cost_microcents)) [
  | inl e ↦ rw e (refl, refl)
  | inr e ↦ rw e (refl, refl)
]

pub report-Silent :
    (g : Uuid) (error : Option (Text × Text)) (t : Turn) → Silent t (report g error t)
unfolding report emit delta_of
report-Silent g none t = record { same_text = refl; same_store = refl }
report-Silent g (some (code, message)) t = record {
  same_text = emit-silent (λ n. StreamEvent.failure g n code message) t refl;
  same_store = refl;
}

pub finish-Silent : (g : Uuid) (l : Loop) (t : Turn) → Silent t (finish g l t)
unfolding finish emit delta_of
finish-Silent g l t =
    let event : ℕ → StreamEvent =
      λ n. StreamEvent.usage g n l.prompt_tokens l.completion_tokens l.cost_microcents in
    record {
      same_text =
          emit-silent (λ n. StreamEvent.done g n l.status) (emit event t) refl
          ∙ emit-silent event t refl;
      same_store = refl;
    }

pub nothing_to_keep-empty :
    (accumulated : Text) (status : GenerationStatus)
    → nothing_to_keep accumulated status ≡ true
    → accumulated ≡ []
unfolding nothing_to_keep
nothing_to_keep-empty [] status h = refl
nothing_to_keep-empty (c ∷ accumulated) GenerationStatus.complete h = ground arith
nothing_to_keep-empty (c ∷ accumulated) GenerationStatus.partial h = ground arith
nothing_to_keep-empty (c ∷ accumulated) GenerationStatus.cancelled h = ground arith
nothing_to_keep-empty (c ∷ accumulated) GenerationStatus.error h = ground arith

module _ (c : SendMessageCommand) (names : TurnNames) (drafts : List CitationDraft) (l : Loop)
    (s : ThreadStore) (h : Carries s l) where
  keep_reply-KeepsReply :
      (t : Turn)
      → streamed_text t.yielded ≡ l.accumulated
      → t.store ≡ s
      → KeepsReply s (keep_reply c names drafts l t)
  unfolding keep_reply persist_with_citations create reply_row
  keep_reply-KeepsReply t told same =
      let g = names.generation_id in
      let (created, store) =
        persist_with_citations (reply_row c names l)
          (λ m. citation_rows names.new_citation_id names.reply_time c.workspace_id m.id 0 drafts)
          t.store in
      let persisted = record t { store = store } in
      let cited = emit_citations g created persisted in
      let silent = emit_citations-Silent g created persisted in
      let (rows, count) = settle_turn-messages c names l cited.store in
      let as_cited : cited.store ≡ store = silent.same_store in
      record {
        reply = reply_row c names l (or_else s.next_seq 1);
        added = rows ∙ ap (λ x. x.messages) as_cited ∙ rw same refl;
        is_streamed = sym told ∙ sym silent.same_text;
        by_assistant = refl;
        unnamed = refl;
        numbered = refl;
        counted = count ∙ ap (λ x. x.next_seq) as_cited ∙ rw same refl;
      }

  -- The reply is kept, or there was nothing to keep.
  pub conclude_turn-keeps :
      KeepsReply s (conclude_turn c names drafts l)
      ⊎ KeepsNothing s (conclude_turn c names drafts l)
  unfolding conclude_turn
  conclude_turn-keeps =
      let g = names.generation_id in
      let reported = report g l.error l.turn in
      let silent = report-Silent g l.error l.turn in
      let told : streamed_text reported.yielded ≡ l.accumulated = silent.same_text ∙ h.told in
      let same : reported.store ≡ s = silent.same_store ∙ h.same_store in
      let kept = keep_reply c names drafts l reported in
      elim (Bool-cases (nothing_to_keep l.accumulated l.status)) [
        | inl e ↦
            let end = finish-Silent g l reported in
            rw e (
              inr (record {
                same_messages = ap (λ x. x.messages) (end.same_store ∙ same);
                same_counter = ap (λ x. x.next_seq) (end.same_store ∙ same);
                is_silent = end.same_text ∙ told ∙ nothing_to_keep-empty l.accumulated l.status e;
              }))
        | inr e ↦
            let end = finish-Silent g l kept in
            let k = keep_reply-KeepsReply reported told same in
            rw e (
              inl (record {
                reply = k.reply;
                added = ap (λ x. x.messages) end.same_store ∙ k.added;
                is_streamed = k.is_streamed ∙ sym end.same_text;
                by_assistant = k.by_assistant;
                unnamed = k.unnamed;
                numbered = k.numbered;
                counted = ap (λ x. x.next_seq) end.same_store ∙ k.counted;
              }))
      ]

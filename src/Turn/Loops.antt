-- ===== src/Turn/Loops.antt =====
-- The streaming loop of `SendMessage.execute` (apps/api/src/aether/app/chat/send_message.py), and what
-- follows it, against the grammar of the events.
use aether_ai_workspace.Base.{
  ℕ, suc, ◌≡◌, refl, inl, inr, Bool, true, false, Option, none, some, List, [], ◌∷◌, Text,
  Bool-cases, is_some,
}
use aether_ai_workspace.Domain.Entities.{Uuid, CitationDraft}
use aether_ai_workspace.Router.Relay.{GeneratorChunk, text, generation_usage, Exn}
use aether_ai_workspace.Streaming.{StreamEvent, generation_of, seq_of}
use aether_ai_workspace.Streaming.Grammar.{StreamPhase, is_failure, next_phase}
use aether_ai_workspace.Turn.Store.{citation_rows, persist_with_citations}
use aether_ai_workspace.Turn.Ports.{SendMessageCommand, TurnNames, Turn}
use aether_ai_workspace.Turn.Generation.{
  Loop, reply_row, end_loop, take_chunk, stream_chunks, report, finish, keep_reply, conclude_turn,
  failed_status, nothing_to_keep,
}
use aether_ai_workspace.Turn.Reader.{At, Cites, emit-At, emit_citations-At, ending-At}

-- What holds at the end of the loop.
abbrev pub Streamed : Uuid → Loop → Type 0
Streamed g l = (is_failure l.status ≡ is_some l.error) × At g StreamPhase.streaming l.turn

-- What holds while it runs.
abbrev pub Streaming : Uuid → Loop → Type 0
Streaming g l = (is_failure l.status ≡ false) × (l.error ≡ none) × At g StreamPhase.streaming l.turn

pub failed_status-is_failure : (accumulated : Text) → is_failure (failed_status accumulated) ≡ true
failed_status-is_failure [] = refl
failed_status-is_failure (c ∷ accumulated) = refl

module _ (is_cancelled : ℕ → Bool) (exn_text : Exn → Text) (g : Uuid) where
  take_chunk-Streaming :
      (chunk : GeneratorChunk) (l : Loop) → Streaming g l → Streaming g (take_chunk g chunk l)
  unfolding take_chunk generation_of seq_of next_phase
  take_chunk-Streaming (generation_usage u) l h = h
  take_chunk-Streaming (text delta) l (fine, clear, h) = (
    fine,
    clear,
    emit-At g StreamPhase.streaming StreamPhase.streaming (λ n. StreamEvent.token g n delta) l.turn
        refl refl refl h,
  )

  end_loop-Streamed :
      (i : ℕ) (raised : Option Exn) (l : Loop)
      → Streaming g l
      → Streamed g (end_loop is_cancelled exn_text g i raised l)
  unfolding end_loop
  end_loop-Streamed i (some e) l (fine, clear, h) = (failed_status-is_failure l.accumulated, h)
  end_loop-Streamed i none l (fine, clear, h) = elim (Bool-cases (is_cancelled i)) [
    | inl e ↦ rw e (rw clear refl, h)
    | inr e ↦ rw e (rw (fine, clear) refl, h)
  ]

  pub stream_chunks-Streamed :
      (i : ℕ) (chunks : List GeneratorChunk) (raised : Option Exn) (l : Loop)
      → Streaming g l
      → Streamed g (stream_chunks is_cancelled exn_text g i chunks raised l)
  unfolding stream_chunks
  stream_chunks-Streamed i [] raised l h = end_loop-Streamed i raised l h
  stream_chunks-Streamed i (chunk ∷ chunks) raised l h = elim (Bool-cases (is_cancelled i)) [
    | inl e ↦ rw e (rw h.1 refl, h.2)
    | inr e ↦ rw e (
        stream_chunks-Streamed (suc i) chunks raised (take_chunk g chunk l)
          (take_chunk-Streaming chunk l h))
  ]

-- The error event, if the loop failed.
report-At :
    (g : Uuid) (error : Option (Text × Text)) (t : Turn)
    → At g StreamPhase.streaming t
    → (phase : StreamPhase) × Cites (is_some error) phase × At g phase (report g error t)
unfolding report generation_of seq_of next_phase
report-At g none t h = (StreamPhase.streaming, inr (refl, refl), h)
report-At g (some (code, message)) t h = (
  StreamPhase.citing true,
  inl refl,
  emit-At g StreamPhase.streaming (StreamPhase.citing true)
      (λ n. StreamEvent.failure g n code message) t refl refl refl h,
)

keep_reply-At :
    (c : SendMessageCommand) (names : TurnNames) (drafts : List CitationDraft) (l : Loop)
    (failed : Bool) (phase : StreamPhase) (t : Turn)
    → Cites failed phase
    → At names.generation_id phase t
    → (after : StreamPhase) × Cites failed after
      × At names.generation_id after (keep_reply c names drafts l t)
unfolding keep_reply
keep_reply-At c names drafts l failed phase t cites h =
    let (created, store) =
      persist_with_citations (reply_row c names l)
        (λ m. citation_rows names.new_citation_id names.reply_time c.workspace_id m.id 0 drafts)
        t.store in
    let (after, cites', cited) =
      emit_citations-At names.generation_id failed created phase (record t { store = store }) cites
        (record { reads = h.reads; buffered = h.buffered }) in
    (after, cites', record { reads = cited.reads; buffered = cited.buffered })

pub conclude_turn-At :
    (c : SendMessageCommand) (names : TurnNames) (drafts : List CitationDraft) (l : Loop)
    → Streamed names.generation_id l
    → At names.generation_id StreamPhase.closed (conclude_turn c names drafts l)
unfolding conclude_turn finish
conclude_turn-At c names drafts l (told, h) =
    let g = names.generation_id in
    let (phase, cites, reported) = report-At g l.error l.turn h in
    elim (Bool-cases (nothing_to_keep l.accumulated l.status)) [
      | inl e ↦ rw e (
          ending-At g l.prompt_tokens l.completion_tokens l.cost_microcents l.status
            (is_some l.error) phase (report g l.error l.turn) cites told reported)
      | inr e ↦
          let (after, cites', kept) =
            keep_reply-At c names drafts l (is_some l.error) phase (report g l.error l.turn) cites
              reported in
          rw e (
            ending-At g l.prompt_tokens l.completion_tokens l.cost_microcents l.status
              (is_some l.error) after (keep_reply c names drafts l (report g l.error l.turn)) cites'
              told kept)
    ]

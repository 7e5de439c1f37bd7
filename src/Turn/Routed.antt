-- ===== src/Turn/Routed.antt =====
-- A turn whose generator is the router (apps/api/src/aether/app/llm/router.py): what of the providers'
-- texts reaches the client through app/chat/send_message.py.
use aether_ai_workspace.Base.{
  ℕ, suc, ◌≡◌, refl, sym, ◌∙◌, Bool, Option, none, some, List, [], ◌∷◌, ◌++◌, append-nil,
  append_assoc, ap, map, Text, Bool-cases, inl, inr, ◌⊎◌, if◌then◌else◌,
}
use mathlib.Core.Path.{subst}
use aether_ai_workspace.Domain.Entities.{Uuid, CitationDraft}
use aether_ai_workspace.Memory.{MemoryContext}
use aether_ai_workspace.Retrieval.Floats.{Floats}
use aether_ai_workspace.Retrieval.Selection.{RankedChunk}
use aether_ai_workspace.Router.Envelope.{RetrievedContext}
use aether_ai_workspace.Router.Messages.{build_messages, active_system_prompt}
use aether_ai_workspace.Router.Relay.{GeneratorChunk, text, generation_usage, Exn}
use aether_ai_workspace.Router.Relay.Filter.{texts}
use aether_ai_workspace.Router.Generate.{LlmRouter, Readings, Breakers, Generated, generate}
use aether_ai_workspace.Router.Generate.Fallback.{Spoke, generate-OneVoice}
use aether_ai_workspace.Turn.Store.{persist_with_citations, citation_rows}
use aether_ai_workspace.Turn.Ports.{SendMessageCommand, TurnNames, Generator, SendMessage, Turn}
use aether_ai_workspace.Turn.Generation.{
  Loop, reply_row, start_loop, end_loop, take_chunk, stream_chunks, report, nothing_to_keep,
  keep_reply, conclude_turn, to_context_chunk, to_draft,
}
use aether_ai_workspace.Turn.Execute.{generate_reply}
use aether_ai_workspace.Turn.Text.{streamed_text, stream_chunks-Carries, emit_citations-Silent}
use aether_ai_workspace.Turn.Kept.{report-Silent, finish-Silent}

-- `LlmRouter.primary_model`; `none` is the IndexError of an empty chain.
unfoldable pub primary_model : LlmRouter → Option Text
primary_model router = elim router.model_chain [ [] ↦ none | entry ∷ chain ↦ some entry.1 ]

-- The router as a generator, with the clock and the breakers that it finds.
unfoldable pub router_generator : LlmRouter → Text → Readings → Breakers → Generator
unfolding generate
router_generator router model clock breakers = record {
  primary_model = model;
  generate = λ thread_history user_content context memory_summary.
      let g =
        generate router clock breakers thread_history user_content (some context) memory_summary in
      record { chunks = g.yielded; raised = g.raised };
}

unfoldable pub joined : List Text → Text
joined [] = []
joined (t ∷ ts) = t ++ joined ts

-- The chunks in front of the first one, counted from `i`, at which the turn is found cancelled.
unfoldable pub until_cancelled : (ℕ → Bool) → ℕ → List GeneratorChunk → List GeneratorChunk
until_cancelled is_cancelled i [] = []
until_cancelled is_cancelled i (chunk ∷ chunks) =
    let rest = until_cancelled is_cancelled (suc i) chunks in
    if is_cancelled i then [] else chunk ∷ rest

module _ (is_cancelled : ℕ → Bool) where
  -- What a cancellation cuts off is the end of the text.
  until_cancelled-front :
      (i : ℕ) (chunks : List GeneratorChunk)
      → (cut : Text) × (joined (texts chunks)
          ≡ joined (texts (until_cancelled is_cancelled i chunks)) ++ cut)
  unfolding until_cancelled joined texts
  until_cancelled-front i [] = ([], refl)
  until_cancelled-front i (generation_usage u ∷ chunks) = elim (Bool-cases (is_cancelled i)) [
    | inl e ↦ (joined (texts chunks), rw e refl)
    | inr e ↦ let (cut, same) = until_cancelled-front (suc i) chunks in (cut, rw e same)
  ]
  until_cancelled-front i (text delta ∷ chunks) = elim (Bool-cases (is_cancelled i)) [
    | inl e ↦ (delta ++ joined (texts chunks), rw e refl)
    | inr e ↦
        let (cut, same) = until_cancelled-front (suc i) chunks in
        (
          cut,
          rw e (
              ap (λ t. delta ++ t) same
              ∙ sym (
                  append_assoc delta (joined (texts (until_cancelled is_cancelled (suc i) chunks)))
                    cut)),
        )
  ]

  -- The loop passes on the texts of the chunks in front of a cancellation.
  stream_chunks-text :
      (exn_text : Exn → Text) (g : Uuid) (i : ℕ) (chunks : List GeneratorChunk)
      (raised : Option Exn) (l : Loop)
      → (stream_chunks is_cancelled exn_text g i chunks raised l).accumulated
        ≡ l.accumulated ++ joined (texts (until_cancelled is_cancelled i chunks))
  unfolding stream_chunks end_loop take_chunk joined texts until_cancelled
  stream_chunks-text exn_text g i [] (some e) l = sym (append-nil l.accumulated)
  stream_chunks-text exn_text g i [] none l = elim (Bool-cases (is_cancelled i)) [
    | inl e ↦ rw e (sym (append-nil l.accumulated))
    | inr e ↦ rw e (sym (append-nil l.accumulated))
  ]
  stream_chunks-text exn_text g i (generation_usage u ∷ chunks) raised l =
      elim (Bool-cases (is_cancelled i)) [
        | inl e ↦ rw e (sym (append-nil l.accumulated))
        | inr e ↦ rw e (
            stream_chunks-text exn_text g (suc i) chunks raised
              (take_chunk g (generation_usage u) l))
      ]
  stream_chunks-text exn_text g i (text delta ∷ chunks) raised l =
      elim (Bool-cases (is_cancelled i)) [
        | inl e ↦ rw e (sym (append-nil l.accumulated))
        | inr e ↦ rw e (
            stream_chunks-text exn_text g (suc i) chunks raised (take_chunk g (text delta) l)
            ∙ append_assoc l.accumulated delta
                (joined (texts (until_cancelled is_cancelled (suc i) chunks))))
      ]

keep_reply-text :
    (c : SendMessageCommand) (names : TurnNames) (drafts : List CitationDraft) (l : Loop) (t : Turn)
    → streamed_text (keep_reply c names drafts l t).yielded ≡ streamed_text t.yielded
unfolding keep_reply
keep_reply-text c names drafts l t =
    let (created, store) =
      persist_with_citations (reply_row c names l)
        (λ m. citation_rows names.new_citation_id names.reply_time c.workspace_id m.id 0 drafts)
        t.store in
    (emit_citations-Silent names.generation_id created (record t { store = store })).same_text

-- What follows the loop adds no text.
conclude_turn-text :
    (c : SendMessageCommand) (names : TurnNames) (drafts : List CitationDraft) (l : Loop)
    → streamed_text (conclude_turn c names drafts l).yielded ≡ streamed_text l.turn.yielded
unfolding conclude_turn
conclude_turn-text c names drafts l =
    let g = names.generation_id in
    let reported = report g l.error l.turn in
    let kept = keep_reply c names drafts l reported in
    let same = (report-Silent g l.error l.turn).same_text in
    elim (Bool-cases (nothing_to_keep l.accumulated l.status)) [
      | inl e ↦ rw e ((finish-Silent g l reported).same_text ∙ same)
      | inr e ↦
          rw e
            ((finish-Silent g l kept).same_text ∙ keep_reply-text c names drafts l reported ∙ same)
    ]

module _ (fl : Floats) (p : SendMessage fl) (router : LlmRouter) (model : Text) (clock : Readings)
    (breakers : Breakers) (c : SendMessageCommand) (names : TurnNames)
    (chunks : List (RankedChunk fl)) (memory : MemoryContext) where
  abbrev pub routed : SendMessage fl
  routed = record p { generator = router_generator router model clock breakers }

  abbrev pub context_of : Option RetrievedContext
  context_of = some (record { chunks = map (to_context_chunk fl) chunks })

  -- The generation of the turn.
  abbrev pub generated : Generated
  generated = generate router clock breakers memory.window c.content context_of memory.summary

  -- The text is empty, or the beginning of what a single call of a registered provider says.
  abbrev pub SaysOne : Text → Type 0
  SaysOne streamed =
      (streamed ≡ [])
      ⊎ (said : List Text) × Spoke router (active_system_prompt context_of)
          (build_messages memory.window c.content context_of memory.summary) said
        × ((cut : Text) × (joined said ≡ streamed ++ cut))

  generated-SaysOne :
      (is_cancelled : ℕ → Bool)
      → SaysOne (joined (texts (until_cancelled is_cancelled 0 generated.yielded)))
  unfolding joined
  generated-SaysOne is_cancelled =
      let (cut, whole) = until_cancelled-front is_cancelled 0 generated.yielded in
      elim (generate-OneVoice router clock breakers memory.window c.content context_of
        memory.summary) [
          | inl silent ↦ inl (nothing _ cut (sym whole ∙ ap joined silent))
          | inr (spoke, _) ↦ inr (texts generated.yielded, spoke, (cut, whole))
        ]
    where
      nothing : (front cut : Text) → front ++ cut ≡ [] → front ≡ []
      nothing [] cut e = refl
      nothing (x ∷ front) cut e = absurd (cc e)

  -- Of a turn that has streamed no text yet and generates its reply with the router: the text that
  -- the turn streams is what the generation's chunks say up to the first at which the turn is found
  -- cancelled; and this text is empty, or it is the beginning of what a single call of one registered
  -- provider says.
  pub generate_reply-OneVoice :
      (t : Turn)
      → streamed_text t.yielded ≡ []
      → let streamed : Text =
          streamed_text (generate_reply fl routed c names chunks memory t).yielded in
        (streamed ≡ joined (texts (until_cancelled p.is_cancelled 0 generated.yielded)))
        × SaysOne streamed
  unfolding generate_reply start_loop router_generator
  generate_reply-OneVoice t silent =
      let g = names.generation_id in
      let start = start_loop model t in
      let carried =
        stream_chunks-Carries t.store p.is_cancelled p.exn_text g 0 generated.yielded
          generated.raised start (record { told = silent; same_store = refl }) in
      let same =
        conclude_turn-text c names (map (to_draft fl) chunks)
          (stream_chunks p.is_cancelled p.exn_text g 0 generated.yielded generated.raised start)
        ∙ carried.told
        ∙ stream_chunks-text p.is_cancelled p.exn_text g 0 generated.yielded generated.raised
            start in
      (same, subst SaysOne (sym same) (generated-SaysOne p.is_cancelled))

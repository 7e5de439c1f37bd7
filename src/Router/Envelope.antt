-- ===== src/Router/Envelope.antt =====
-- `_neutralize_delimiter_lookalikes`, `_render_memory_envelope` and `_render_context_envelope` of
-- apps/api/src/aether/app/llm/router.py: the envelopes round untrusted text in a prompt.
pub mod Runs
pub mod Safe
pub mod Faithful
use aether_ai_workspace.Base.{
  ℕ, zero, suc, ◌+◌, Bool, true, false, ◌&&◌, ◌||◌, List, [], ◌∷◌, ◌++◌, map, Text, codes, leb,
  ◌==◌, if◌then◌else◌, replicate,
}
use aether_ai_workspace.Router.Prompts.{
  context_envelope_open, context_envelope_close, context_envelope_notice, memory_envelope_open,
  memory_envelope_close, memory_envelope_notice,
}

-- `RetrievedContextChunk` and `RetrievedContext` of ports/chat.py
pub record RetrievedContextChunk : Type 0 where
  pub content : Text
  pub document_title : Text
  pub section_path : Text

pub record RetrievedContext : Type 0 where
  pub chunks : List RetrievedContextChunk

abbrev pub less : ℕ
less = b'<'

abbrev pub greater : ℕ
greater = b'>'

abbrev pub newline : ℕ
newline = 10

abbrev pub is_angle : ℕ → Bool
is_angle c = c == less || c == greater

-- The single angle quotation marks U+2039 and U+203A.
abbrev pub lookalike : ℕ → ℕ
lookalike c = if c == less then 0x2039 else 0x203a

-- What a run of `n` angles `d` becomes: the pattern is `<{3,}|>{3,}`.
unfoldable pub flush : ℕ → ℕ → Text
flush d n = replicate n (if leb 3 n then lookalike d else d)

-- `_ANGLE_RUN.sub(_replace, text)`, left to right, behind a pending run of `n` angles `d`.
unfoldable pub neutralize_from : ℕ → ℕ → Text → Text
neutralize_from d n [] = flush d n
neutralize_from d n (c ∷ text) = elim (is_angle c) [
  | true ↦ elim (c == d) [
    | true ↦ neutralize_from d (suc n) text
    | false ↦ flush d n ++ neutralize_from c 1 text
  ]
  | false ↦ flush d n ++ (c ∷ neutralize_from less 0 text)
]

unfoldable pub neutralize_delimiter_lookalikes : Text → Text
unfolding neutralize_from flush
neutralize_delimiter_lookalikes text = neutralize_from less 0 text

-- `"\n\n".join(parts)`
unfoldable pub join_blank : List Text → Text
join_blank [] = []
join_blank (p ∷ []) = p
join_blank (p ∷ q ∷ ps) = p ++ (newline ∷ newline ∷ join_blank (q ∷ ps))

unfoldable pub render_memory_body : Text → Text
render_memory_body memory_summary = neutralize_delimiter_lookalikes memory_summary

-- An opening marker, a notice, the body and a closing marker.
unfoldable pub envelope : Text → Text → Text → Text → Text
envelope opening notice body closing =
    opening ++ (newline ∷ (notice ++ (newline ∷ newline ∷ (body ++ (newline ∷ closing)))))

unfoldable pub render_memory_envelope : Text → Text
unfolding envelope render_memory_body memory_envelope_open memory_envelope_notice
    memory_envelope_close
render_memory_envelope memory_summary =
    envelope memory_envelope_open memory_envelope_notice (render_memory_body memory_summary)
      memory_envelope_close

-- `f"[{title} > {section}]\n{content}"`, each part neutralized
unfoldable pub render_chunk : RetrievedContextChunk → Text
render_chunk chunk =
    b'['
    ∷ (neutralize_delimiter_lookalikes chunk.document_title
        ++ (codes " > "
            ++ (neutralize_delimiter_lookalikes chunk.section_path
                ++ (b']' ∷ newline ∷ neutralize_delimiter_lookalikes chunk.content))))

unfoldable pub render_context_body : List RetrievedContextChunk → Text
unfolding join_blank render_chunk
render_context_body [] = codes "(no relevant context was found)"
render_context_body (c ∷ cs) = join_blank (map render_chunk (c ∷ cs))

unfoldable pub render_context_envelope : RetrievedContext → Text
unfolding envelope render_context_body context_envelope_open context_envelope_notice
    context_envelope_close
render_context_envelope context =
    envelope context_envelope_open context_envelope_notice (render_context_body context.chunks)
      context_envelope_close

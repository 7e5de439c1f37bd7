-- ===== src/Router/Envelope/Safe.antt =====
-- What stands in an envelope can hold none of the boundary markers, whatever the untrusted text.
use aether_ai_workspace.Base.{
  ℕ, zero, suc, ◌+◌, ◌≤◌, ◌<◌, ◌≡◌, ◌≢◌, refl, ◌⊎◌, inl, inr, true, false, List, [], ◌∷◌, ◌++◌,
  Text, leb, ◌==◌, replicate, arith, Contains, Bool-cases, append-nil, ◌∙◌, All, map, append_assoc,
  sym, ap,
}
use aether_ai_workspace.Router.Prompts.{
  context_envelope_open, context_envelope_close, memory_envelope_open, memory_envelope_close,
}
use native.Mathlib.Decide.{ℕ_discrete}
use aether_ai_workspace.Router.Envelope.{
  RetrievedContextChunk, newline, render_chunk, join_blank, render_context_body, render_memory_body,
  less, is_angle, lookalike, flush, neutralize_from, neutralize_delimiter_lookalikes,
}
use aether_ai_workspace.Router.Envelope.Runs.{
  trail, short_runs-append, short_runs-no_triple, short_runs, HasShortRuns, short_runs-other,
  short_runs-replicate_other, short_runs-replicate_self,
}

-- A run of `m` in front may go on into the pending run of `n` angles `d`: not if it is empty, nor
-- if `d` is another character.
abbrev Apart : ℕ → ℕ → ℕ → ℕ → Type 0
Apart c m d n = (m ≡ 0) ⊎ ((0 < n) × (d ≢ c))

-- A run of another character ends the run of `c`.
replicate_other :
    (c d m n : ℕ) (t : Text)
    → d ≢ c
    → m ≤ 2
    → (m ≡ 0) ⊎ (0 < n)
    → short_runs c 0 t ≡ true
    → short_runs c m (replicate n d ++ t) ≡ true
replicate_other c d m zero t h le a r = ground arith
replicate_other c d m (suc n) t h le a r = short_runs-replicate_other c d m n t h ∙ r

pub neutralize_from-same :
    (d n x : ℕ) (t : Text)
    → is_angle x ≡ true
    → (x == d) ≡ true
    → neutralize_from d n (x ∷ t) ≡ neutralize_from d (suc n) t
unfolding neutralize_from
neutralize_from-same d n x t a e = ground arith

pub neutralize_from-turn :
    (d n x : ℕ) (t : Text)
    → is_angle x ≡ true
    → (x == d) ≡ false
    → neutralize_from d n (x ∷ t) ≡ flush d n ++ neutralize_from x 1 t
unfolding neutralize_from
neutralize_from-turn d n x t a e = ground arith

pub neutralize_from-plain :
    (d n x : ℕ) (t : Text)
    → is_angle x ≡ false
    → neutralize_from d n (x ∷ t) ≡ flush d n ++ (x ∷ neutralize_from less 0 t)
unfolding neutralize_from
neutralize_from-plain d n x t a = ground arith

ended : (c k : ℕ) → short_runs c k [] ≡ true
unfolding short_runs
ended c k = refl

module _ (c : ℕ) (angle : is_angle c ≡ true) where
  flush-short_runs :
      (d n m : ℕ) (t : Text)
      → m ≤ 2
      → Apart c m d n
      → ((k : ℕ) → k ≤ 2 → (k ≡ 0) ⊎ (d ≡ c) → short_runs c k t ≡ true)
      → short_runs c m (flush d n ++ t) ≡ true
  unfolding flush
  flush-short_runs d n m t le a rest = elim (Bool-cases (leb 3 n)) [
    | inl long ↦ rw long (
        replicate_other c (lookalike d) m n t (ground arith) le (ground arith)
          (rest 0 (omega arith) (inl refl)))
    | inr short ↦ elim (ℕ_discrete d c) [
      | yes same ↦
          let start : m ≡ 0 = ground arith in
          let z : 0 + n ≡ n = omega arith in
          let e = short_runs-replicate_self c 0 n t (ground arith) in
          rw (short, same, start)
            (e ∙ ap (λ k. short_runs c k t) z ∙ rest n (ground arith) (inr same))
      | no other ↦
          rw short
            (replicate_other c d m n t other le (ground arith) (rest 0 (omega arith) (inl refl)))
    ]
  ]

  neutralize_from-short_runs :
      (text : Text) (d n m : ℕ)
      → m ≤ 2
      → Apart c m d n
      → short_runs c m (neutralize_from d n text) ≡ true
  unfolding neutralize_from
  neutralize_from-short_runs [] d n m le a =
      rw (sym (append-nil (flush d n))) (flush-short_runs d n m [] le a (λ k _ _. ended c k))
  neutralize_from-short_runs (x ∷ text) d n m le a = elim (Bool-cases (is_angle x)) [
    | inl is_run ↦ elim (Bool-cases (x == d)) [
      | inl same ↦
          rw (neutralize_from-same d n x text is_run same)
            (neutralize_from-short_runs text d (suc n) m le (ground arith))
      | inr other ↦ rw (neutralize_from-turn d n x text is_run other) (
          flush-short_runs d n m _ le a
            (λ k kle apart. neutralize_from-short_runs text x 1 k kle (ground arith)))
    ]
    | inr plain ↦ rw (neutralize_from-plain d n x text plain) (
        flush-short_runs d n m _ le a (λ k kle apart.
          short_runs-other c k x _ (ground arith)
          ∙ neutralize_from-short_runs text less 0 0 (omega arith) (inl refl)))
  ]

  -- A neutralized text never has three equal angle brackets in a row, so no boundary marker.
  pub neutralize-HasShortRuns :
      (text : Text) → HasShortRuns c (neutralize_delimiter_lookalikes text)
  unfolding neutralize_delimiter_lookalikes
  neutralize-HasShortRuns text = neutralize_from-short_runs text less 0 0 (omega arith) (inl refl)

  -- Parts whose first character is not `c` are joined without a longer run.
  glue :
      (s t : Text) (x : ℕ)
      → x ≢ c
      → HasShortRuns c s
      → HasShortRuns c t
      → HasShortRuns c (s ++ (x ∷ t))
  glue s t x ne hs ht =
      ground
        (arith, short_runs-append c 0 s (x ∷ t), short_runs-other c (trail c 0 s) x t ne, hs, ht)

  skip : (x : ℕ) (t : Text) → x ≢ c → HasShortRuns c t → HasShortRuns c (x ∷ t)
  skip x t ne h = short_runs-other c 0 x t ne ∙ h

  single : (x y : ℕ) (t : Text) → y ≢ c → HasShortRuns c t → HasShortRuns c (x ∷ y ∷ t)
  unfolding short_runs
  single x y t ne h = ground (arith, h)

  render_chunk-HasShortRuns : (chunk : RetrievedContextChunk) → HasShortRuns c (render_chunk chunk)
  unfolding render_chunk
  render_chunk-HasShortRuns chunk = skip b'[' _ (ground arith) (
      glue _ _ b' ' (ground arith) (neutralize-HasShortRuns chunk.document_title) (
        single b'>' b' ' _ (ground arith) (
          glue _ _ b']' (ground arith) (neutralize-HasShortRuns chunk.section_path)
            (skip newline _ (ground arith) (neutralize-HasShortRuns chunk.content)))))

  join_blank-HasShortRuns :
      (parts : List Text) → All (HasShortRuns c) parts → HasShortRuns c (join_blank parts)
  unfolding join_blank
  join_blank-HasShortRuns [] h = ended c 0
  join_blank-HasShortRuns (p ∷ []) h = h.0
  join_blank-HasShortRuns (p ∷ q ∷ ps) h =
      glue _ _ newline (ground arith) h.0
        (skip newline _ (ground arith) (join_blank-HasShortRuns (q ∷ ps) h.1))

  chunks-HasShortRuns :
      (chunks : List RetrievedContextChunk) → All (HasShortRuns c) (map render_chunk chunks)
  chunks-HasShortRuns [] = tt
  chunks-HasShortRuns (x ∷ xs) = (render_chunk-HasShortRuns x, chunks-HasShortRuns xs)

  render_context_body-HasShortRuns :
      (chunks : List RetrievedContextChunk) → HasShortRuns c (render_context_body chunks)
  unfolding render_context_body short_runs
  render_context_body-HasShortRuns [] = ground arith
  render_context_body-HasShortRuns (x ∷ xs) =
      join_blank-HasShortRuns (map render_chunk (x ∷ xs)) (chunks-HasShortRuns (x ∷ xs))

-- A text that holds a boundary marker holds three opening brackets in a row.
Contains-prefix : (s r t : Text) → Contains (s ++ r) t → Contains s t
Contains-prefix s r t k = record {
  before = k.before;
  after = r ++ k.after;
  split = k.split ∙ ap (λ u. k.before ++ u) (append_assoc s r k.after);
}

-- The four boundary markers.
abbrev pub markers : List Text
markers =
    context_envelope_open ∷ context_envelope_close ∷ memory_envelope_open ∷ memory_envelope_close
    ∷ []

-- None of the boundary markers stands in the text.
abbrev pub HasNoMarker : Text → Type 0
HasNoMarker t = All (λ m. ¬ (Contains m t)) markers

no_marker : (t : Text) → HasShortRuns less t → HasNoMarker t
unfolding context_envelope_open context_envelope_close memory_envelope_open memory_envelope_close
no_marker t h =
    let none_of = λ (r : Text) (k : Contains (replicate 3 less ++ r) t).
      short_runs-no_triple less t h (Contains-prefix (replicate 3 less) r t k) in
    (none_of _, (none_of _, (none_of _, (none_of _, tt))))

-- Whatever the titles, the section paths and the contents of the retrieved chunks are, the text
-- between the notice and the closing marker of the context envelope holds none of the four
-- boundary markers, and neither does the summary's text in the memory envelope.
pub envelope_unforgeable :
    (chunks : List RetrievedContextChunk) (memory_summary : Text)
    → HasNoMarker (render_context_body chunks) × HasNoMarker (render_memory_body memory_summary)
unfolding render_memory_body
envelope_unforgeable chunks memory_summary = (
  no_marker _ (render_context_body-HasShortRuns less refl chunks),
  no_marker _ (neutralize-HasShortRuns less refl memory_summary),
)

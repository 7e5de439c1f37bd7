-- ===== src/Chunking/Pack/Bounds.antt =====
-- How large a chunk can get.
use aether_ai_workspace.Base.{
  Any-left, ℕ, ◌+◌, ◌*◌, ◌≤◌, ◌<◌, ◌≡◌, refl, ◌⊎◌, inl, inr, false, ◌&&◌, List, [], ◌∷◌, ◌++◌, ltb,
  arith, Bool-cases, All, Any, Text, sym, ap, All-append, All-right,
}
use mathlib.Core.Path.{subst}
use mathlib.Core.List.{reverse, reverse-cons}
use aether_ai_workspace.Domain.Entities.{ChunkDraft}
use aether_ai_workspace.Chunking.Flatten.{Sentence, TableItem, Item, sentence}
use aether_ai_workspace.Chunking.Pack.{
  target_tokens, hard_max_tokens, tokens, draft, flush, overlap_loop, overlap_tail, nonempty,
  Packing, close_section, close_full, table_draft, pack_item, pack,
}
use aether_ai_workspace.Chunking.Pack.Invariant.{
  Known, EachSentence, room, pack-Known, overlap_tail-suffix,
}

tokens-append : (b c : List Sentence) → tokens (b ++ c) ≡ tokens b + tokens c
unfolding tokens
tokens-append [] c = omega arith
tokens-append (s ∷ b) c = omega (arith, tokens-append b c)

abbrev EachAtMost : ℕ → List Sentence → Type 0
EachAtMost m = All (λ s. s.token_count ≤ m)

-- The loop stops with less than an eighth of the total and one more sentence.
overlap_loop-tokens :
    (total m : ℕ) (rest tail : List Sentence) (accumulated : ℕ)
    → EachAtMost m rest
    → tokens tail ≡ accumulated
    → 8 * accumulated ≤ total + 8 * m
    → 8 * tokens (overlap_loop total rest tail accumulated) ≤ total + 8 * m
unfolding overlap_loop tokens
overlap_loop-tokens total m [] tail accumulated each e h = omega arith
overlap_loop-tokens total m (s ∷ rest) tail accumulated each e h =
    ground (arith, overlap_loop-tokens total m rest (s ∷ tail) (accumulated + s.token_count) each.1)

All-reverse : (P : Sentence → Type 0) (b : List Sentence) → All P b → All P (reverse b)
All-reverse P [] h = tt
All-reverse P (s ∷ b) h =
    subst (All P) (sym (reverse-cons s b))
      (All-append P (reverse b) (s ∷ []) (All-reverse P b h.1) (h.0, tt))

overlap_tail-tokens :
    (m : ℕ) (b : List Sentence) → EachAtMost m b → 8 * tokens (overlap_tail b) ≤ tokens b + 8 * m
unfolding overlap_tail tokens
overlap_tail-tokens m b each =
    overlap_loop-tokens (tokens b) m (reverse b) [] 0 (All-reverse _ b each) refl (omega arith)

overlap_tail-le : (b : List Sentence) → tokens (overlap_tail b) ≤ tokens b
overlap_tail-le b =
    let (front, e) = overlap_tail-suffix b in
    omega (arith, ap tokens e, tokens-append front (overlap_tail b))

-- The most tokens that a sentence may have, if the hard maximum is to hold.
abbrev pub sentence_limit : ℕ
sentence_limit = 350

abbrev Fits : List Sentence → Type 0
Fits b = EachAtMost sentence_limit b × (tokens b ≤ hard_max_tokens)

Fits-overlap_tail : (b : List Sentence) → Fits b → Fits (overlap_tail b)
Fits-overlap_tail b h =
    let (front, e) = overlap_tail-suffix b in
    (
      All-right (λ s. s.token_count ≤ sentence_limit) front (overlap_tail b)
          (subst (EachAtMost sentence_limit) e h.0),
      omega (arith, overlap_tail-le b, h.1),
    )

close_section-Fits : (s : Sentence) (p : Packing) → Fits p.buffer → Fits (close_section s p).buffer
unfolding close_section tokens
close_section-Fits s p h = elim (Bool-cases (s.starts_new_top_level_section && nonempty p.buffer)) [
  | inl closes ↦ rw closes (tt, omega arith)
  | inr stays ↦ rw stays h
]

none_left : (b : List Sentence) → nonempty b ≡ false → tokens b ≡ 0
unfolding tokens
none_left [] h = refl
none_left (s ∷ b) h = cc

-- Before a sentence is appended the buffer is empty, or has room for it, or is an overlap.
close_full-Fits :
    (s : Sentence) (p : Packing)
    → s.token_count ≤ sentence_limit
    → Fits p.buffer
    → EachAtMost sentence_limit (close_full s p).buffer
      × (tokens (close_full s p).buffer + s.token_count ≤ hard_max_tokens)
unfolding close_full
close_full-Fits s p small h =
    elim (Bool-cases (nonempty p.buffer && ltb hard_max_tokens (tokens p.buffer + s.token_count))) [
      | inl closes ↦ rw closes (
        (Fits-overlap_tail p.buffer h).0,
        omega (arith, overlap_tail-tokens sentence_limit p.buffer h.0, h.1),
      )
      | inr stays ↦ rw stays (h.0, ground (arith, none_left p.buffer))
    ]

single : (t : Sentence) → tokens (t ∷ []) ≡ t.token_count
unfolding tokens
single t = omega arith

extend-Fits :
    (s : Sentence) (p : Packing)
    → s.token_count ≤ sentence_limit
    → Fits p.buffer
    → Fits (room s p ++ (s ∷ []))
extend-Fits s p small h =
    let (each, sum) = close_full-Fits s (close_section s p) small (close_section-Fits s p h) in
    (
      All-append (λ t. t.token_count ≤ sentence_limit) (room s p) (s ∷ []) each (small, tt),
      omega (arith, tokens-append (room s p) (s ∷ []), single s),
    )

-- A chunk is a table, or has at most the hard maximum of tokens.
abbrev pub Bounded : (Text → ℕ) → ChunkDraft → Type 0
Bounded count_tokens c =
    ((t : TableItem) × (c ≡ table_draft count_tokens t)) ⊎ (c.token_count ≤ hard_max_tokens)

Known→Bounded :
    (count_tokens : Text → ℕ) (chunks : List ChunkDraft)
    → All (Known count_tokens (λ t. List Item × Fits []) (λ b. List Item × Fits b)) chunks
    → All (Bounded count_tokens) chunks
unfolding draft
Known→Bounded count_tokens [] h = tt
Known→Bounded count_tokens (c ∷ chunks) h = (
  elim h.0 [ inl (t, _, e) ↦ inl (t, e) | inr d ↦ inr (ground (arith, d.same, d.keeps.1)) ],
  Known→Bounded count_tokens chunks h.1,
)

-- If no sentence has more than 350 tokens, every chunk that is not a table has at most 800, the hard
-- maximum, although each starts with the overlap of the one before.
pub pack-le_hard_max :
    (count_tokens : Text → ℕ) (items : List Item)
    → All (EachSentence (λ s. s.token_count ≤ sentence_limit)) items
    → All (Bounded count_tokens) (pack count_tokens items)
pack-le_hard_max count_tokens items small = Known→Bounded count_tokens (pack count_tokens items) (
    pack-Known count_tokens (λ rest. Fits) (λ s. s.token_count ≤ sentence_limit)
      (λ rest b h. no_buffer) (λ t rest h. h) (λ rest. Fits-overlap_tail)
      (λ s rest p. extend-Fits s p) items no_buffer small)
  where
    no_buffer : Fits []
    no_buffer = (tt, unfold tokens in omega arith)

flush-Any :
    (P : ChunkDraft → Type 0) (b : List Sentence) (chunks : List ChunkDraft)
    → Any P chunks
    → Any P (flush b chunks)
unfolding flush
flush-Any P [] chunks h = h
flush-Any P (s ∷ b) chunks h = Any-left P chunks (draft s b ∷ []) h

overlap_tail-single : (a : Sentence) → 0 < a.token_count → overlap_tail (a ∷ []) ≡ a ∷ []
unfolding overlap_tail
overlap_tail-single a pos = ground arith

first_item :
    (count_tokens : Text → ℕ) (a : Sentence)
    → a.token_count < target_tokens
    → pack_item count_tokens (record { buffer = []; chunks = [] }) (sentence a)
      ≡ record { buffer = a ∷ []; chunks = [] }
unfolding pack_item
first_item count_tokens a la = ground arith

second_item :
    (count_tokens : Text → ℕ) (a b : Sentence)
    → 0 < a.token_count
    → b.starts_new_top_level_section ≡ false
    → hard_max_tokens < a.token_count + b.token_count
    → pack_item count_tokens (record { buffer = a ∷ []; chunks = [] }) (sentence b)
      ≡ record { buffer = overlap_tail (a ∷ b ∷ []); chunks = draft a [] ∷ draft a (b ∷ []) ∷ [] }
unfolding pack_item
second_item count_tokens a b pos nb over = ground (arith, overlap_tail-single a pos)

-- Of a list of just two sentences, the first with some tokens but fewer than the target, the second
-- starting no section of the top level, and both together with more tokens than the hard maximum,
-- packing makes a chunk of both, above the hard maximum.
pub pack-exceeds :
    (count_tokens : Text → ℕ) (a b : Sentence)
    → a.token_count < target_tokens
    → 0 < a.token_count
    → b.starts_new_top_level_section ≡ false
    → hard_max_tokens < a.token_count + b.token_count
    → Any
        (λ c. (c ≡ draft a (b ∷ [])) × (hard_max_tokens < c.token_count))
        (pack count_tokens (sentence a ∷ sentence b ∷ []))
unfolding pack
pack-exceeds count_tokens a b la pos nb over =
    rw (first_item count_tokens a la, second_item count_tokens a b pos nb over)
      (flush-Any _ (overlap_tail (a ∷ b ∷ [])) (draft a [] ∷ draft a (b ∷ []) ∷ [])
        (inr (inl (refl, over_draft))))
  where
    over_draft : hard_max_tokens < (draft a (b ∷ [])).token_count
    over_draft = omega (arith, over)

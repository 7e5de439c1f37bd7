-- ===== src/Chunking/Pack/Invariant.antt =====
-- A proof rule for the packing loop: what every chunk keeps of an invariant of the buffer.
use aether_ai_workspace.Base.{
  ℕ, ◌+◌, ◌*◌, ◌≡◌, refl, ◌⊎◌, inl, inr, ◌&&◌, List, [], ◌∷◌, ◌++◌, leb, ltb, Bool-cases, All,
  All-append, Text, ◌∙◌, sym, append_assoc, append-nil, ap,
}
use aether_ai_workspace.Chunking.Pack.{
  overlap_loop, target_tokens, hard_max_tokens, tokens, draft, flush, overlap_tail, nonempty,
  Packing, close_section, close_full, close_target, append_sentence, table_draft, pack_item,
  pack_items, pack,
}
use mathlib.Core.List.{reverse, reverse-reverse, reverse-cons}
use aether_ai_workspace.Domain.Entities.{ChunkDraft}
use aether_ai_workspace.Chunking.Flatten.{Sentence, TableItem, Item, sentence, table_item}

-- A chunk is a table as a whole, or it was drawn from a buffer with the invariant.
pub record Drawn (Inv : List Sentence → Type 0) (c : ChunkDraft) : Type 0 where
  pub first : Sentence
  pub others : List Sentence
  pub keeps : Inv (first ∷ others)
  pub same : c ≡ draft first others

abbrev pub Known :
    (Text → ℕ) → (TableItem → Type 0) → (List Sentence → Type 0) → ChunkDraft → Type 0
Known count_tokens Met Inv c =
    ((t : TableItem) × Met t × (c ≡ table_draft count_tokens t)) ⊎ Drawn Inv c

-- The sentence of an item, if it is one, has the property.
abbrev pub EachSentence : (Sentence → Type 0) → Item → Type 0
EachSentence Ok (sentence s) = Ok s
EachSentence Ok (table_item t) = Unit

-- The buffer when the sentence is appended to it.
abbrev pub room : Sentence → Packing → List Sentence
room s p = (close_full s (close_section s p)).buffer

-- `Inv rest b` is what holds of the buffer `b` when the items `rest` are still to come.
module _ (count_tokens : Text → ℕ) (Inv : List Item → List Sentence → Type 0)
    (Ok : Sentence → Type 0)
    (clear : (rest : List Item) (b : List Sentence) → Inv rest b → Inv rest [])
    (skip : (t : TableItem) (rest : List Item) → Inv (table_item t ∷ rest) [] → Inv rest [])
    (shorten : (rest : List Item) (b : List Sentence) → Inv rest b → Inv rest (overlap_tail b))
    (extend : (s : Sentence) (rest : List Item) (p : Packing)
      → Ok s
      → Inv (sentence s ∷ rest) p.buffer
      → Inv rest (room s p ++ (s ∷ []))) where
  -- What a chunk keeps of it, and a table.
  abbrev pub Kept : List Sentence → Type 0
  Kept b = (rest : List Item) × Inv rest b

  abbrev pub Met : TableItem → Type 0
  Met t = (rest : List Item) × Inv (table_item t ∷ rest) []

  abbrev Good : List Item → Packing → Type 0
  Good rest p = Inv rest p.buffer × All (Known count_tokens Met Kept) p.chunks

  flush-Known :
      (rest : List Item) (b : List Sentence) (chunks : List ChunkDraft)
      → Inv rest b
      → All (Known count_tokens Met Kept) chunks
      → All (Known count_tokens Met Kept) (flush b chunks)
  unfolding flush
  flush-Known rest [] chunks i h = h
  flush-Known rest (s ∷ b) chunks i h =
      All-append (Known count_tokens Met Kept) chunks (draft s b ∷ []) h
        (inr (record { first = s; others = b; keeps = (rest, i); same = refl }), tt)

  close_section-chunks :
      (rest : List Item) (s : Sentence) (p : Packing) → Good rest p → Good rest (close_section s p)
  unfolding close_section
  close_section-chunks rest s p g =
      elim (Bool-cases (s.starts_new_top_level_section && nonempty p.buffer)) [
        | inl closes ↦
            rw closes (clear rest p.buffer g.0, flush-Known rest p.buffer p.chunks g.0 g.1)
        | inr stays ↦ rw stays g
      ]

  close_full-chunks :
      (rest : List Item) (s : Sentence) (p : Packing) → Good rest p → Good rest (close_full s p)
  unfolding close_full
  close_full-chunks rest s p g =
      elim (Bool-cases
        (nonempty p.buffer && ltb hard_max_tokens (tokens p.buffer + s.token_count))) [
          | inl closes ↦
              rw closes (shorten rest p.buffer g.0, flush-Known rest p.buffer p.chunks g.0 g.1)
          | inr stays ↦ rw stays g
        ]

  close_target-Good : (rest : List Item) (p : Packing) → Good rest p → Good rest (close_target p)
  unfolding close_target
  close_target-Good rest p g = elim (Bool-cases (leb target_tokens (tokens p.buffer))) [
    | inl closes ↦ rw closes (shorten rest p.buffer g.0, flush-Known rest p.buffer p.chunks g.0 g.1)
    | inr stays ↦ rw stays g
  ]

  pack_item-Good :
      (p : Packing) (i : Item) (rest : List Item)
      → EachSentence Ok i
      → Good (i ∷ rest) p
      → Good rest (pack_item count_tokens p i)
  unfolding pack_item
  pack_item-Good p (table_item t) rest o g =
      let cleared = clear (table_item t ∷ rest) p.buffer g.0 in
      (
        skip t rest cleared,
        All-append (Known count_tokens Met Kept) (flush p.buffer p.chunks)
            (table_draft count_tokens t ∷ [])
            (flush-Known (table_item t ∷ rest) p.buffer p.chunks g.0 g.1)
            (inl (t, (rest, cleared), refl), tt),
      )
  pack_item-Good p (sentence s) rest o g =
      close_target-Good rest (append_sentence s (close_full s (close_section s p))) (
        extend s rest p o g.0,
        (close_full-chunks (sentence s ∷ rest) s (close_section s p)
            (close_section-chunks (sentence s ∷ rest) s p g)).1,
      )

  pack_items-Good :
      (items : List Item) (p : Packing)
      → All (EachSentence Ok) items
      → Good items p
      → Good [] (pack_items count_tokens p items)
  unfolding pack_items
  pack_items-Good [] p o g = g
  pack_items-Good (i ∷ items) p o g =
      pack_items-Good items (pack_item count_tokens p i) o.1 (pack_item-Good p i items o.0 g)

  pub pack-Known :
      (items : List Item)
      → Inv items []
      → All (EachSentence Ok) items
      → All (Known count_tokens Met Kept) (pack count_tokens items)
  unfolding pack
  pack-Known items start o =
      let g = pack_items-Good items (record { buffer = []; chunks = [] }) o (start, tt) in
      flush-Known [] _ _ g.0 g.1

-- The overlap is the end of the buffer.
overlap_loop-suffix :
    (total : ℕ) (rest tail : List Sentence) (accumulated : ℕ)
    → (front : List Sentence) × (reverse rest ++ tail
        ≡ front ++ overlap_loop total rest tail accumulated)
unfolding overlap_loop
overlap_loop-suffix total [] tail accumulated = ([], refl)
overlap_loop-suffix total (s ∷ rest) tail accumulated =
    elim (Bool-cases (leb total (8 * accumulated))) [
      | inl done ↦ (reverse (s ∷ rest), rw done)
      | inr more ↦
          let (front, e) =
            overlap_loop-suffix total rest (s ∷ tail) (accumulated + s.token_count) in
          (
            front,
            rw more (
                ap (λ l. l ++ tail) (reverse-cons s rest)
                ∙ append_assoc (reverse rest) (s ∷ []) tail
                ∙ e),
          )
    ]

pub overlap_tail-suffix :
    (b : List Sentence) → (front : List Sentence) × (b ≡ front ++ overlap_tail b)
unfolding overlap_tail
overlap_tail-suffix b =
    let (front, e) = overlap_loop-suffix (tokens b) (reverse b) [] 0 in
    (front, sym (reverse-reverse b) ∙ sym (append-nil (reverse (reverse b))) ∙ e)

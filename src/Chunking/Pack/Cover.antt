-- ===== src/Chunking/Pack/Cover.antt =====
-- Where packing puts the sentences of a document.
use aether_ai_workspace.Base.{
  codes, ℕ, ◌+◌, ◌≡◌, refl, ◌⊎◌, inl, inr, ◌&&◌, List, [], ◌∷◌, ◌++◌, leb, ltb, Bool-cases, Any,
  Any-left, Any-right, Text, Contains, ◌∙◌, sym, ap, map, append_assoc, append-nil,
}
use mathlib.Core.Path.{subst}
use aether_ai_workspace.Domain.Entities.{ChunkDraft}
use aether_ai_workspace.Chunking.Flatten.{Sentence, Item, sentence, table_item, join}
use aether_ai_workspace.Chunking.Pack.{
  target_tokens, hard_max_tokens, tokens, draft, flush, nonempty, Packing, close_section,
  close_full, close_target, append_sentence, pack_item, pack_items, pack,
}

-- A part of a joined text stands in it.
Contains-join :
    (sep s : Text) (p : Text) (ps : List Text)
    → Any (λ t. t ≡ s) (p ∷ ps)
    → Contains s (join sep (p ∷ ps))
unfolding join
Contains-join sep s p [] (inl e) = record {
  before = [];
  after = [];
  split = e ∙ sym (append-nil s);
}
Contains-join sep s p [] (inr h) = elim h [ ]
Contains-join sep s p (q ∷ ps) (inl e) = record {
  before = [];
  after = sep ++ join sep (q ∷ ps);
  split = ap (λ t. t ++ (sep ++ join sep (q ∷ ps))) e;
}
Contains-join sep s p (q ∷ ps) (inr h) =
    let c = Contains-join sep s q ps h in
    record {
      before = p ++ (sep ++ c.before);
      after = c.after;
      split =
          ap (λ t. p ++ (sep ++ t)) c.split
          ∙ ap (λ t. p ++ t) (sym (append_assoc sep c.before (s ++ c.after)))
          ∙ sym (append_assoc p (sep ++ c.before) (s ++ c.after));
    }

Any-texts :
    (s : Sentence) (b : List Sentence)
    → Any (λ t. t ≡ s) b
    → Any (λ t. t ≡ s.text) (map (λ (t : Sentence). t.text) b)
Any-texts s [] h = elim h [ ]
Any-texts s (t ∷ b) (inl e) = inl (ap (λ (u : Sentence). u.text) e)
Any-texts s (t ∷ b) (inr h) = inr (Any-texts s b h)

-- The chunk's text holds the sentence.
abbrev pub Holds : Sentence → ChunkDraft → Type 0
Holds s c = Contains s.text c.content

draft-Holds : (s f : Sentence) (b : List Sentence) → Any (λ t. t ≡ s) (f ∷ b) → Holds s (draft f b)
unfolding draft
draft-Holds s f b h = Contains-join (codes " ") s.text f.text _ (Any-texts s (f ∷ b) h)

module _ (s : Sentence) where
  -- The sentence stands in a chunk, or still in the buffer.
  abbrev Held : Packing → Type 0
  Held p = Any (Holds s) p.chunks ⊎ Any (λ t. t ≡ s) p.buffer

  flush-Held : (p : Packing) → Held p → Any (Holds s) (flush p.buffer p.chunks)
  flush-Held p h = go p.buffer h
    where
      go :
          (b : List Sentence)
          → Any (Holds s) p.chunks ⊎ Any (λ t. t ≡ s) b
          → Any (Holds s) (flush b p.chunks)
      go [] (inl c) = unfold flush in c
      go [] (inr m) = elim m [ ]
      go (f ∷ b) (inl c) = unfold flush in Any-left (Holds s) p.chunks (draft f b ∷ []) c
      go (f ∷ b) (inr m) =
          unfold flush in Any-right (Holds s) p.chunks (draft f b ∷ []) (inl (draft-Holds s f b m))

  close_section-Held : (t : Sentence) (p : Packing) → Held p → Held (close_section t p)
  unfolding close_section
  close_section-Held t p h =
      elim (Bool-cases (t.starts_new_top_level_section && nonempty p.buffer)) [
        | inl closes ↦ rw closes (inl (flush-Held p h))
        | inr stays ↦ rw stays h
      ]

  close_full-Held : (t : Sentence) (p : Packing) → Held p → Held (close_full t p)
  unfolding close_full
  close_full-Held t p h =
      elim (Bool-cases
        (nonempty p.buffer && ltb hard_max_tokens (tokens p.buffer + t.token_count))) [
          | inl closes ↦ rw closes (inl (flush-Held p h))
          | inr stays ↦ rw stays h
        ]

  close_target-Held : (p : Packing) → Held p → Held (close_target p)
  unfolding close_target
  close_target-Held p h = elim (Bool-cases (leb target_tokens (tokens p.buffer))) [
    | inl closes ↦ rw closes (inl (flush-Held p h))
    | inr stays ↦ rw stays h
  ]

  append-Held : (t : Sentence) (p : Packing) → Held p → Held (append_sentence t p)
  append-Held t p (inl c) = inl c
  append-Held t p (inr m) = inr (Any-left (λ u. u ≡ s) p.buffer (t ∷ []) m)

  module _ (count_tokens : Text → ℕ) where
    pack_item-Held : (i : Item) (p : Packing) → Held p → Held (pack_item count_tokens p i)
    unfolding pack_item
    pack_item-Held (table_item t) p h = inl (Any-left (Holds s) _ _ (flush-Held p h))
    pack_item-Held (sentence t) p h =
        close_target-Held _ (append-Held t _ (close_full-Held t _ (close_section-Held t p h)))

    pack_items-Held :
        (items : List Item) (p : Packing) → Held p → Held (pack_items count_tokens p items)
    unfolding pack_items
    pack_items-Held [] p h = h
    pack_items-Held (i ∷ items) p h =
        pack_items-Held items (pack_item count_tokens p i) (pack_item-Held i p h)

    pack_item-meets : (p : Packing) → Held (pack_item count_tokens p (sentence s))
    unfolding pack_item
    pack_item-meets p =
        let q = close_full s (close_section s p) in
        close_target-Held (append_sentence s q)
          (inr (Any-right (λ u. u ≡ s) q.buffer (s ∷ []) (inl refl)))

    -- The sentence is there from the moment at which its item is packed.
    pack_items-meets :
        (items : List Item) (p : Packing)
        → Any (λ i. i ≡ sentence s) items
        → Held (pack_items count_tokens p items)
    unfolding pack_items
    pack_items-meets [] p m = elim m [ ]
    pack_items-meets (i ∷ items) p (inl e) =
        pack_items-Held items (pack_item count_tokens p i)
          (subst (λ j. Held (pack_item count_tokens p j)) (sym e) (pack_item-meets p))
    pack_items-meets (i ∷ items) p (inr m) = pack_items-meets items (pack_item count_tokens p i) m

    -- The text of each sentence that is packed stands, unbroken, in the content of some chunk.
    pub pack-Holds :
        (items : List Item)
        → Any (λ i. i ≡ sentence s) items
        → Any (Holds s) (pack count_tokens items)
    unfolding pack
    pack-Holds items m = flush-Held _ (pack_items-meets items _ m)

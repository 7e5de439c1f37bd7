-- ===== src/Chunking/Pack/Sections.antt =====
-- Packing and the starts of the sections of the top level.
use aether_ai_workspace.Base.{
  ℕ, ◌+◌, ◌≡◌, refl, inl, inr, true, false, ◌&&◌, List, [], ◌∷◌, ◌++◌, ltb, ap, map, append-nil,
  append_assoc, ◌∙◌, ◌⊎◌, arith, Bool-cases, All, All-append, All-right, Text, sym,
}
use mathlib.Core.Path.{subst}
use mathlib.Core.List.{map-append}
use aether_ai_workspace.Domain.Entities.{ChunkDraft}
use aether_ai_workspace.Chunking.Flatten.{Sentence, TableItem, Item, sentence, table_item}
use aether_ai_workspace.Chunking.Pack.{
  hard_max_tokens, tokens, draft, table_draft, overlap_tail, nonempty, Packing, close_section,
  close_full, pack,
}
use aether_ai_workspace.Chunking.Pack.Invariant.{
  Known, EachSentence, room, pack-Known, overlap_tail-suffix,
}

-- Only the first sentence of a buffer may start a section of the top level.
abbrev pub OneSection : List Sentence → Type 0
OneSection [] = Unit
OneSection (s ∷ b) = All (λ t. t.starts_new_top_level_section ≡ false) b

OneSection-All :
    (b : List Sentence) → All (λ t. t.starts_new_top_level_section ≡ false) b → OneSection b
OneSection-All [] h = tt
OneSection-All (s ∷ b) h = h.1

OneSection-right : (front b : List Sentence) → OneSection (front ++ b) → OneSection b
OneSection-right [] b h = h
OneSection-right (f ∷ front) b h = OneSection-All b (All-right _ front b h)

OneSection-overlap_tail : (b : List Sentence) → OneSection b → OneSection (overlap_tail b)
OneSection-overlap_tail b h =
    let (front, e) = overlap_tail-suffix b in
    OneSection-right front (overlap_tail b) (subst OneSection e h)

OneSection-snoc :
    (b : List Sentence) (s : Sentence)
    → OneSection b
    → s.starts_new_top_level_section ≡ false
    → OneSection (b ++ (s ∷ []))
OneSection-snoc [] s h e = tt
OneSection-snoc (f ∷ b) s h e = All-append _ b (s ∷ []) h (e, tt)

close_section-starts :
    (s : Sentence) (p : Packing)
    → s.starts_new_top_level_section ≡ true
    → (close_section s p).buffer ≡ []
unfolding close_section
close_section-starts s p e = go p.buffer refl
  where
    go : (b : List Sentence) → p.buffer ≡ b → (close_section s p).buffer ≡ []
    go [] h = unfold close_section in ground arith
    go (t ∷ b) h = unfold close_section in ground arith

close_full-empty : (s : Sentence) (p : Packing) → p.buffer ≡ [] → (close_full s p).buffer ≡ []
unfolding close_full
close_full-empty s p e = ground arith

close_section-same :
    (s : Sentence) (p : Packing) → s.starts_new_top_level_section ≡ false → close_section s p ≡ p
unfolding close_section
close_section-same s p e = ground arith

close_full-OneSection :
    (s : Sentence) (p : Packing) → OneSection p.buffer → OneSection (close_full s p).buffer
unfolding close_full
close_full-OneSection s p h =
    elim (Bool-cases (nonempty p.buffer && ltb hard_max_tokens (tokens p.buffer + s.token_count))) [
      | inl closes ↦ rw closes (OneSection-overlap_tail p.buffer h)
      | inr stays ↦ rw stays h
    ]

extend-OneSection :
    (s : Sentence) (p : Packing) → OneSection p.buffer → OneSection (room s p ++ (s ∷ []))
extend-OneSection s p h = elim (Bool-cases s.starts_new_top_level_section) [
  | inl starts ↦
      let e : room s p ≡ [] =
        close_full-empty s (close_section s p) (close_section-starts s p starts) in
      subst (λ b. OneSection (b ++ (s ∷ []))) (sym e) tt
  | inr goes_on ↦
      let e = close_section-same s p goes_on in
      OneSection-snoc (room s p) s
        (close_full-OneSection s (close_section s p) (subst (λ q. OneSection q.buffer) (sym e) h))
        goes_on
]

-- What is left of the buffer is its end.
close_full-suffix :
    (s : Sentence) (p : Packing)
    → (front : List Sentence) × (p.buffer ≡ front ++ (close_full s p).buffer)
unfolding close_full
close_full-suffix s p =
    elim (Bool-cases (nonempty p.buffer && ltb hard_max_tokens (tokens p.buffer + s.token_count))) [
      | inl closes ↦ rw closes (overlap_tail-suffix p.buffer)
      | inr stays ↦ ([], rw stays refl)
    ]

room-suffix :
    (s : Sentence) (p : Packing) → (front : List Sentence) × (p.buffer ≡ front ++ room s p)
room-suffix s p = elim (Bool-cases s.starts_new_top_level_section) [
  | inl starts ↦
      let e : room s p ≡ [] =
        close_full-empty s (close_section s p) (close_section-starts s p starts) in
      (p.buffer, rw e (sym (append-nil p.buffer)))
  | inr goes_on ↦
      let e = close_section-same s p goes_on in
      subst (λ q. (front : List Sentence) × (p.buffer ≡ front ++ (close_full s q).buffer)) (sym e)
        (close_full-suffix s p)
]

module _ (items : List Item) where
  -- The sentences stand in a row among the items, in front of `rest`.
  abbrev pub EndsAt : List Item → List Sentence → Type 0
  EndsAt rest b = (before : List Item) × (items ≡ before ++ (map sentence b ++ rest))

  EndsAt-right :
      (rest : List Item) (front b : List Sentence) → EndsAt rest (front ++ b) → EndsAt rest b
  EndsAt-right rest front b (before, e) = (
    before ++ map sentence front,
    e
        ∙ ap (λ t. before ++ (t ++ rest)) (map-append sentence front b)
        ∙ ap (λ t. before ++ t) (append_assoc (map sentence front) (map sentence b) rest)
        ∙ sym (append_assoc before (map sentence front) (map sentence b ++ rest)),
  )

  EndsAt-nil : (rest : List Item) (b : List Sentence) → EndsAt rest b → EndsAt rest []
  EndsAt-nil rest b h = EndsAt-right rest b [] (subst (EndsAt rest) (sym (append-nil b)) h)

  EndsAt-next : (i : Item) (rest : List Item) → EndsAt (i ∷ rest) [] → EndsAt rest []
  EndsAt-next i rest (before, e) = (before ++ (i ∷ []), e ∙ sym (append_assoc before (i ∷ []) rest))

  EndsAt-snoc :
      (s : Sentence) (rest : List Item) (b : List Sentence)
      → EndsAt (sentence s ∷ rest) b
      → EndsAt rest (b ++ (s ∷ []))
  EndsAt-snoc s rest b (before, e) = (
    before,
    e
        ∙ ap (λ t. before ++ t)
            (sym (append_assoc (map sentence b) (sentence s ∷ []) rest)
              ∙ ap (λ t. t ++ rest) (sym (map-append sentence b (s ∷ [])))),
  )

  abbrev Inv : List Item → List Sentence → Type 0
  Inv rest b = OneSection b × EndsAt rest b

  Inv-overlap_tail : (rest : List Item) (b : List Sentence) → Inv rest b → Inv rest (overlap_tail b)
  Inv-overlap_tail rest b (one, place) =
      let (front, e) = overlap_tail-suffix b in
      (
        OneSection-overlap_tail b one,
        EndsAt-right rest front (overlap_tail b) (subst (EndsAt rest) e place),
      )

  extend-Inv :
      (s : Sentence) (rest : List Item) (p : Packing)
      → Unit {0}
      → Inv (sentence s ∷ rest) p.buffer
      → Inv rest (room s p ++ (s ∷ []))
  extend-Inv s rest p o (one, place) =
      let (front, e) = room-suffix s p in
      (
        extend-OneSection s p one,
        EndsAt-snoc s rest (room s p) (
            EndsAt-right (sentence s ∷ rest) front (room s p)
              (subst (EndsAt (sentence s ∷ rest)) e place)),
      )

  -- A chunk is one of the tables among the items; or it is the draft of sentences that stand in a
  -- row among the items, and of which only the first may start a section of the top level.
  abbrev pub IsOfOneSection : (Text → ℕ) → ChunkDraft → Type 0
  IsOfOneSection count_tokens c =
      ((t : TableItem) × (before : List Item) × (after : List Item) × (items
          ≡ before ++ (table_item t ∷ after))
        × (c ≡ table_draft count_tokens t))
      ⊎ (s : Sentence) × (b : List Sentence) × (before : List Item) × (after : List Item) × (items
          ≡ before ++ (map sentence (s ∷ b) ++ after))
        × All (λ t. t.starts_new_top_level_section ≡ false) b
        × (c ≡ draft s b)

  Known→IsOfOneSection :
      (count_tokens : Text → ℕ) (chunks : List ChunkDraft)
      → All
          (Known count_tokens
            (λ t. (rest : List Item) × Inv (table_item t ∷ rest) [])
            (λ b. (rest : List Item) × Inv rest b))
          chunks
      → All (IsOfOneSection count_tokens) chunks
  Known→IsOfOneSection count_tokens [] h = tt
  Known→IsOfOneSection count_tokens (c ∷ chunks) h = (
    elim h.0 [
      | inl (t, (rest, (one, (before, e))), is_t) ↦ inl (t, before, rest, e, is_t)
      | inr d ↦
          let (rest, (one, (before, e))) = d.keeps in
          inr (d.first, d.others, before, rest, e, one, d.same)
    ],
    Known→IsOfOneSection count_tokens chunks h.1,
  )

each_ok : (items : List Item) → All (EachSentence (λ s. Unit {0})) items
each_ok [] = tt
each_ok (sentence s ∷ items) = (tt, each_ok items)
each_ok (table_item t ∷ items) = (tt, each_ok items)

-- Every chunk is one of the tables among the items; or it is the draft of sentences that stand in a
-- row among the items, with no table between them, and of which only the first may start a section of
-- the top level.
pub pack-OneSection :
    (count_tokens : Text → ℕ) (items : List Item)
    → All (IsOfOneSection items count_tokens) (pack count_tokens items)
pack-OneSection count_tokens items =
    Known→IsOfOneSection items count_tokens (pack count_tokens items) (
      pack-Known count_tokens (Inv items) (λ s. Unit {0})
        (λ rest b h. (tt, EndsAt-nil items rest b h.1))
        (λ t rest h. (tt, EndsAt-next items (table_item t) rest h.1)) (Inv-overlap_tail items)
        (extend-Inv items) items (tt, ([], refl)) (each_ok items))

-- ===== src/Chunking/Sentences/Offsets.antt =====
-- The offsets of the sentences of a paragraph are those of their texts, and no character but white
-- space is lost.
use aether_ai_workspace.Base.{
  ℕ, ◌+◌, ◌-◌, ◌≡◌, refl, inl, inr, Bool, true, false, ◌&&◌, ◌||◌, List, [], ◌∷◌, ◌++◌, arith, Text,
  ◌∙◌, sym, ap, length, take, drop, length-append, drop-beyond, take-length-append, Bool-cases, All,
  All-append, append_assoc, append-nil, if◌then◌else◌,
}
use mathlib.Core.Path.{subst, ap₂, subst₂}
use aether_ai_workspace.Chunking.Sentences.{
  is_space, is_terminal, rstrip_cons, stripped_span, push, cut, lstrip, rstrip, Span, span_of,
  spans, split_sentences,
}

-- `text[start:end]`
abbrev pub slice : ℕ → ℕ → Text → Text
slice start end text = take (end - start) (drop start text)

unfoldable pub concat : List Text → Text
concat [] = []
concat (t ∷ ts) = t ++ concat ts

concat-push : (c : ℕ) (ps : List Text) → concat (push c ps) ≡ c ∷ concat ps
unfolding concat
concat-push c [] = refl
concat-push c (p ∷ ps) = refl

-- The pieces between the boundaries are the text.
concat-cut : (gap ended : Bool) (text : Text) → concat (cut gap ended text) ≡ text
unfolding cut concat
concat-cut true ended [] = refl
concat-cut false ended [] = refl
concat-cut gap ended (c ∷ text) =
    let rest = cut (is_space c && (gap || ended)) (is_terminal c) text in
    ground
      (arith, concat-push c rest, concat-cut (is_space c && (gap || ended)) (is_terminal c) text)

rstrip_cons-split :
    (c : ℕ) (r trail : Text) → (trail' : Text) × (c ∷ (r ++ trail) ≡ rstrip_cons c r ++ trail')
unfolding rstrip_cons
rstrip_cons-split c [] trail = elim (Bool-cases (is_space c)) [
  | inl blank ↦ (c ∷ trail, rw blank refl)
  | inr solid ↦ (trail, rw solid refl)
]
rstrip_cons-split c (d ∷ r) trail = (trail, refl)

rstrip-split : (t : Text) → (trail : Text) × (t ≡ rstrip t ++ trail)
unfolding rstrip
rstrip-split [] = ([], refl)
rstrip-split (c ∷ t) =
    let (trail, e) = rstrip-split t in
    let (trail', e') = rstrip_cons-split c (rstrip t) trail in (trail', ap (λ u. c ∷ u) e ∙ e')

lstrip-split : (t : Text) → (lead : Text) × (t ≡ lead ++ lstrip t)
unfolding lstrip
lstrip-split [] = ([], refl)
lstrip-split (c ∷ t) = elim (Bool-cases (is_space c)) [
  | inl blank ↦ let (lead, e) = lstrip-split t in (c ∷ lead, rw blank (ap (λ u. c ∷ u) e))
  | inr solid ↦ ([], rw solid refl)
]

lstrip-append :
    (t u : Text) (c : ℕ) (cs : Text) → lstrip t ≡ c ∷ cs → lstrip (t ++ u) ≡ (c ∷ cs) ++ u
unfolding lstrip
lstrip-append [] u c cs h = cc
lstrip-append (d ∷ t) u c cs h = elim (Bool-cases (is_space d)) [
  | inl blank ↦
      let h' : lstrip t ≡ c ∷ cs = ground (arith, h) in ground (arith, lstrip-append t u c cs h')
  | inr solid ↦ let h' : d ∷ t ≡ c ∷ cs = ground (arith, h) in ground (arith, ap (λ l. l ++ u) h')
]

-- What the offsets of a sentence promise, in a text with `pre` in front of the piece.
abbrev IsExact : Text → Span → Type 0
IsExact text s = slice s.start s.end text ≡ s.sentence

slice-middle :
    (pre s post : Text) (start end : ℕ)
    → start ≡ length pre
    → end ≡ length pre + length s
    → slice start end (pre ++ (s ++ post)) ≡ s
slice-middle pre s post start end es ee =
    let width : end - start ≡ length s = omega arith in
    let front : start ≡ length pre + 0 = omega arith in
    ap₂ (λ n l. take n l) width
      (ap (λ n. drop n (pre ++ (s ++ post))) front ∙ drop-beyond pre (s ++ post) 0)
    ∙ take-length-append s post

stripped_span-IsExact :
    (pre raw post stripped : Text)
    → lstrip (rstrip raw) ≡ stripped
    → All (IsExact (pre ++ (raw ++ post))) (stripped_span (length pre) raw stripped)
unfolding stripped_span
stripped_span-IsExact pre raw post [] h = tt
stripped_span-IsExact pre raw post (c ∷ cs) h =
    let (trail, et) = rstrip-split raw in
    let (lead, el) = lstrip-split (rstrip raw) in
    let st = c ∷ cs in
    let ra : raw ≡ lead ++ (st ++ trail) =
      et ∙ ap (λ u. u ++ trail) (el ∙ ap (λ u. lead ++ u) h) ∙ append_assoc lead st trail in
    let ls : lstrip raw ≡ st ++ trail = ap lstrip et ∙ lstrip-append (rstrip raw) trail c cs h in
    let whole : pre ++ (raw ++ post) ≡ (pre ++ lead) ++ (st ++ (trail ++ post)) =
      ap (λ u. pre ++ (u ++ post)) ra ∙ simp append_assoc in
    let n1 = length-append lead (st ++ trail) in
    let n2 = length-append st trail in
    let n3 = length-append pre lead in
    let n4 = length-append lead (lstrip (rstrip raw)) in
    (
      ap (slice _ _) whole
          ∙ slice-middle (pre ++ lead) st (trail ++ post) _ _
              (omega (arith, ap length ra, ap length ls, n1, n2, n3))
              (omega (arith, ap length ra, ap length el, ap length h, n1, n2, n3, n4)),
      tt,
    )

spans-IsExact :
    (pieces : List Text) (pre : Text)
    → All (IsExact (pre ++ concat pieces)) (spans (length pre) pieces)
unfolding spans span_of concat
spans-IsExact [] pre = tt
spans-IsExact (raw ∷ pieces) pre =
    let e : (pre ++ raw) ++ concat pieces ≡ pre ++ (raw ++ concat pieces) =
      append_assoc pre raw (concat pieces) in
    let n : length (pre ++ raw) ≡ length pre + length raw = length-append pre raw in
    All-append (IsExact (pre ++ (raw ++ concat pieces))) (span_of (length pre) raw)
      (spans (length pre + length raw) pieces)
      (stripped_span-IsExact pre raw (concat pieces) (lstrip (rstrip raw)) refl)
      (subst₂ (λ t k. All (IsExact t) (spans k pieces)) e n (spans-IsExact pieces (pre ++ raw)))

split_sentences-exact :
    (text : Text) → All (λ s. slice s.start s.end text ≡ s.sentence) (split_sentences text)
unfolding split_sentences
split_sentences-exact text =
    subst (λ t. All (IsExact t) (split_sentences text)) (concat-cut false false text)
      (spans-IsExact (cut false false text) [])

-- The characters of a text that are no white space.
unfoldable pub solid : Text → Text
solid [] = []
solid (c ∷ text) = let rest = solid text in if is_space c then rest else c ∷ rest

abbrev pub sentences_of : List Span → Text
sentences_of [] = []
sentences_of (s ∷ ss) = s.sentence ++ sentences_of ss

solid-append : (s t : Text) → solid (s ++ t) ≡ solid s ++ solid t
unfolding solid
solid-append [] t = refl
solid-append (c ∷ s) t = ground (arith, solid-append s t)

solid-lstrip : (t : Text) → solid (lstrip t) ≡ solid t
unfolding lstrip solid
solid-lstrip [] = refl
solid-lstrip (c ∷ t) = ground (arith, solid-lstrip t)

solid-rstrip_cons : (c : ℕ) (t : Text) → solid (rstrip_cons c t) ≡ solid (c ∷ t)
unfolding rstrip_cons solid
solid-rstrip_cons c [] = ground arith
solid-rstrip_cons c (d ∷ t) = refl

solid-cons : (c : ℕ) (s t : Text) → solid s ≡ solid t → solid (c ∷ s) ≡ solid (c ∷ t)
unfolding solid
solid-cons c s t e = ground arith

solid-rstrip : (t : Text) → solid (rstrip t) ≡ solid t
unfolding rstrip
solid-rstrip [] = refl
solid-rstrip (c ∷ t) = solid-rstrip_cons c (rstrip t) ∙ solid-cons c (rstrip t) t (solid-rstrip t)

sentences_of-append :
    (xs ys : List Span) → sentences_of (xs ++ ys) ≡ sentences_of xs ++ sentences_of ys
sentences_of-append [] ys = refl
sentences_of-append (x ∷ xs) ys =
    ap (λ u. x.sentence ++ u) (sentences_of-append xs ys)
    ∙ sym (append_assoc x.sentence (sentences_of xs) (sentences_of ys))

sentences_of-stripped :
    (start : ℕ) (raw stripped : Text) → sentences_of (stripped_span start raw stripped) ≡ stripped
unfolding stripped_span
sentences_of-stripped start raw [] = refl
sentences_of-stripped start raw (c ∷ cs) = append-nil (c ∷ cs)

solid-spans :
    (start : ℕ) (pieces : List Text)
    → solid (sentences_of (spans start pieces)) ≡ solid (concat pieces)
unfolding spans span_of concat
solid-spans start [] = refl
solid-spans start (raw ∷ pieces) =
    let st = lstrip (rstrip raw) in
    let rest = spans (start + length raw) pieces in
    ap solid (
      sentences_of-append (stripped_span start raw st) rest
      ∙ ap (λ u. u ++ sentences_of rest) (sentences_of-stripped start raw st))
    ∙ solid-append st (sentences_of rest)
    ∙ ap₂ (λ u v. u ++ v) (solid-lstrip (rstrip raw) ∙ solid-rstrip raw)
        (solid-spans (start + length raw) pieces)
    ∙ sym (solid-append raw (concat pieces))

-- Each sentence of a paragraph is the part of the paragraph that its offsets name, and the sentences
-- in their order hold all its characters but the white space.
pub split_sentences_complete :
    (text : Text)
    → All (λ s. slice s.start s.end text ≡ s.sentence) (split_sentences text)
      × (solid (sentences_of (split_sentences text)) ≡ solid text)
unfolding split_sentences
split_sentences_complete text = (
  split_sentences-exact text,
  solid-spans 0 (cut false false text) ∙ ap solid (concat-cut false false text),
)

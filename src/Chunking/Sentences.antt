-- ===== src/Chunking/Sentences.antt =====
-- `_split_sentences` of apps/api/src/aether/app/ingestion/chunking.py
pub mod Offsets
use aether_ai_workspace.Base.{
  ℕ, ◌+◌, ◌-◌, Bool, true, false, not, ◌&&◌, ◌||◌, List, [], ◌∷◌, ◌++◌, Text, length, drop, leb,
  ◌==◌, if◌then◌else◌,
}
use mathlib.Core.List.{reverse}

-- The white space of `str.isspace` and of `\s`.
unfoldable pub is_space : ℕ → Bool
is_space c =
    (leb 9 c && leb c 13)
    || (leb 28 c && leb c 32)
    || c == 133
    || c == 160
    || c == 5760
    || (leb 8192 c && leb c 8202)
    || c == 8232
    || c == 8233
    || c == 8239
    || c == 8287
    || c == 12288

-- `[.!?]`
unfoldable pub is_terminal : ℕ → Bool
is_terminal c = c == b'.' || c == b'!' || c == b'?'

abbrev pub push : ℕ → List Text → List Text
push c [] = (c ∷ []) ∷ []
push c (piece ∷ pieces) = (c ∷ piece) ∷ pieces

-- The text between the boundaries: a boundary stands at the end of each run of white space that
-- follows a sentence's end. `gap` says that such a run is being read, `ended` that the character in
-- front ends a sentence.
unfoldable pub cut : Bool → Bool → Text → List Text
unfolding is_space is_terminal
cut gap ended [] = if gap then [] ∷ [] ∷ [] else [] ∷ []
cut gap ended (c ∷ text) =
    let pieces = push c (cut (is_space c && (gap || ended)) (is_terminal c) text) in
    if gap && not (is_space c) then [] ∷ pieces else pieces

-- `text.lstrip()`
unfoldable pub lstrip : Text → Text
unfolding is_space
lstrip [] = []
lstrip (c ∷ text) = if is_space c then lstrip text else c ∷ text

-- `text.rstrip()`
unfoldable pub rstrip_cons : ℕ → Text → Text
unfolding is_space
rstrip_cons c [] = if is_space c then [] else c ∷ []
rstrip_cons c (d ∷ rest) = c ∷ d ∷ rest

unfoldable pub rstrip : Text → Text
unfolding rstrip_cons
rstrip [] = []
rstrip (c ∷ text) = rstrip_cons c (rstrip text)

-- A sentence with its offsets in the paragraph.
pub record Span : Type 0 where
  pub start : ℕ
  pub end : ℕ
  pub sentence : Text

-- One piece with its stripped text: skipped if it is blank.
unfoldable pub stripped_span : ℕ → Text → Text → List Span
stripped_span start raw [] = []
stripped_span start raw (c ∷ stripped) =
    record {
      start = start + (length raw - length (lstrip raw));
      end = start + length raw - (length raw - length (rstrip raw));
      sentence = c ∷ stripped;
    }
    ∷ []

unfoldable pub span_of : ℕ → Text → List Span
unfolding stripped_span lstrip rstrip
span_of start raw = stripped_span start raw (lstrip (rstrip raw))

unfoldable pub spans : ℕ → List Text → List Span
unfolding span_of
spans start [] = []
spans start (raw ∷ pieces) = span_of start raw ++ spans (start + length raw) pieces

unfoldable pub split_sentences : Text → List Span
unfolding cut spans
split_sentences text = spans 0 (cut false false text)

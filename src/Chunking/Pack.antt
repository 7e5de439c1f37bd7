-- ===== src/Chunking/Pack.antt =====
-- `chunk_document`, `_flush` and `_overlap_tail` of apps/api/src/aether/app/ingestion/chunking.py:
-- packing sentences into chunks.
pub mod Invariant
pub mod Bounds
pub mod Cover
pub mod Sections
use aether_ai_workspace.Base.{
  ℕ, zero, suc, ◌+◌, ◌*◌, Bool, true, false, ◌&&◌, Option, none, some, List, [], ◌∷◌, ◌++◌, map,
  Text, codes, leb, ltb, if◌then◌else◌,
}
use mathlib.Core.List.{reverse}
use aether_ai_workspace.Domain.Entities.{ChunkDraft}
use aether_ai_workspace.Chunking.Flatten.{Sentence, TableItem, Item, sentence, table_item, join}

abbrev pub target_tokens : ℕ
target_tokens = 512

abbrev pub hard_max_tokens : ℕ
hard_max_tokens = 800

unfoldable pub tokens : List Sentence → ℕ
tokens [] = 0
tokens (s ∷ buffer) = s.token_count + tokens buffer

abbrev pub last_of : Sentence → List Sentence → Sentence
last_of s [] = s
last_of s (t ∷ buffer) = last_of t buffer

-- The pages that are known.
unfoldable pub pages : List Sentence → List ℕ
pages [] = []
pages (s ∷ buffer) = elim s.page [ none ↦ pages buffer | some p ↦ p ∷ pages buffer ]

-- `min(pages) if pages else None`, and `max`
unfoldable pub least : List ℕ → Option ℕ
least [] = none
least (p ∷ ps) = elim (least ps) [ none ↦ some p | some q ↦ if leb p q then some p else some q ]

unfoldable pub greatest : List ℕ → Option ℕ
greatest [] = none
greatest (p ∷ ps) = elim (greatest ps) [
  | none ↦ some p
  | some q ↦ if leb q p then some p else some q
]

-- The chunk of a buffer that starts with `s`.
unfoldable pub draft : Sentence → List Sentence → ChunkDraft
unfolding join pages least greatest tokens
draft s buffer = record {
  content = join (codes " ") (map (λ t. t.text) (s ∷ buffer));
  section_path = (last_of s buffer).section_path;
  page_start = least (pages (s ∷ buffer));
  page_end = greatest (pages (s ∷ buffer));
  char_start = s.char_start;
  char_end = (last_of s buffer).char_end;
  token_count = tokens (s ∷ buffer);
}

unfoldable pub flush : List Sentence → List ChunkDraft → List ChunkDraft
unfolding draft
flush [] chunks = chunks
flush (s ∷ buffer) chunks = chunks ++ (draft s buffer ∷ [])

-- The loop over the reversed buffer: `accumulated >= total * 0.125` is `total <= 8 * accumulated`.
unfoldable pub overlap_loop : ℕ → List Sentence → List Sentence → ℕ → List Sentence
overlap_loop total [] tail accumulated = tail
overlap_loop total (s ∷ rest) tail accumulated =
    let longer = overlap_loop total rest (s ∷ tail) (accumulated + s.token_count) in
    if leb total (8 * accumulated) then tail else longer

unfoldable pub overlap_tail : List Sentence → List Sentence
unfolding tokens overlap_loop
overlap_tail buffer = overlap_loop (tokens buffer) (reverse buffer) [] 0

abbrev pub nonempty : List Sentence → Bool
nonempty [] = false
nonempty (s ∷ buffer) = true

-- The loop variables.
pub record Packing : Type 0 where
  pub buffer : List Sentence
  pub chunks : List ChunkDraft

-- A heading of the top level closes what is there, with no overlap.
unfoldable pub close_section : Sentence → Packing → Packing
unfolding flush
close_section s p =
    if s.starts_new_top_level_section && nonempty p.buffer
    then record { buffer = []; chunks = flush p.buffer p.chunks }
    else p

-- A sentence that would pass the hard maximum closes the chunk in front of it.
unfoldable pub close_full : Sentence → Packing → Packing
unfolding flush overlap_tail tokens
close_full s p =
    if nonempty p.buffer && ltb hard_max_tokens (tokens p.buffer + s.token_count)
    then record { buffer = overlap_tail p.buffer; chunks = flush p.buffer p.chunks }
    else p

-- A chunk that has reached the target is closed.
unfoldable pub close_target : Packing → Packing
unfolding flush overlap_tail tokens
close_target p =
    if leb target_tokens (tokens p.buffer)
    then record { buffer = overlap_tail p.buffer; chunks = flush p.buffer p.chunks }
    else p

abbrev pub append_sentence : Sentence → Packing → Packing
append_sentence s p = record p { buffer = p.buffer ++ (s ∷ []) }

module _ (count_tokens : Text → ℕ) where
  unfoldable pub table_draft : TableItem → ChunkDraft
  table_draft t = record {
    content = t.text;
    section_path = t.section_path;
    page_start = t.page;
    page_end = t.page;
    char_start = t.char_start;
    char_end = t.char_end;
    token_count = count_tokens t.text;
  }

  unfoldable pub pack_item : Packing → Item → Packing
  unfolding close_section close_full close_target table_draft flush
  pack_item p (table_item t) = record {
    buffer = [];
    chunks = flush p.buffer p.chunks ++ (table_draft t ∷ []);
  }
  pack_item p (sentence s) = close_target (append_sentence s (close_full s (close_section s p)))

  unfoldable pub pack_items : Packing → List Item → Packing
  unfolding pack_item
  pack_items p [] = p
  pack_items p (i ∷ items) = pack_items (pack_item p i) items

  unfoldable pub pack : List Item → List ChunkDraft
  unfolding pack_items
  pack items =
      let p = pack_items (record { buffer = []; chunks = [] }) items in flush p.buffer p.chunks

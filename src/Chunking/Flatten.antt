-- ===== src/Chunking/Flatten.antt =====
-- The document tree, `_flatten_to_sentences` and `_interleave` of chunking.py, under
-- apps/api/src/aether/app/ingestion.
pub mod Tables
use aether_ai_workspace.Base.{
  ℕ, zero, suc, ◌+◌, Bool, true, false, Option, none, some, List, [], ◌∷◌, ◌++◌, map, Text, codes,
  length, leb, ◌==◌, if◌then◌else◌,
}
use mathlib.Core.List.{reverse}
use aether_ai_workspace.Chunking.Sentences.{Span, split_sentences}

pub data NodeKind : Type 0 where
  heading paragraph table : NodeKind

pub record DocumentNode : Type 0 where
  pub kind : NodeKind
  pub text : Text
  pub level : Option ℕ
  pub page : Option ℕ

pub record Sentence : Type 0 where
  pub text : Text
  pub section_path : Text
  pub page : Option ℕ
  pub char_start : ℕ
  pub char_end : ℕ
  pub starts_new_top_level_section : Bool
  pub token_count : ℕ

pub record TableItem : Type 0 where
  pub text : Text
  pub section_path : Text
  pub page : Option ℕ
  pub char_start : ℕ
  pub char_end : ℕ

pub data Item : Type 0 where
  sentence : Sentence → Item
  table_item : TableItem → Item

-- `sep.join(parts)`
unfoldable pub join : Text → List Text → Text
join sep [] = []
join sep (p ∷ []) = p
join sep (p ∷ q ∷ ps) = p ++ (sep ++ join sep (q ∷ ps))

-- `node.level or 1`
abbrev pub level_of : Option ℕ → ℕ
level_of none = 1
level_of (some zero) = 1
level_of (some (suc n)) = suc n

-- The loop variables. The top of the heading stack stands first.
pub record Flat : Type 0 where
  pub sentences : List Sentence
  pub table_positions : List (ℕ × TableItem)
  pub heading_stack : List (ℕ × Text)
  pub offset : ℕ

-- `while heading_stack and heading_stack[-1][0] >= level: heading_stack.pop()`
unfoldable pub pop_to : ℕ → List (ℕ × Text) → List (ℕ × Text)
pop_to level [] = []
pop_to level ((l, title) ∷ stack) = if leb level l then pop_to level stack else (l, title) ∷ stack

unfoldable pub section_path : List (ℕ × Text) → Text
unfolding join
section_path stack = join (codes " > ") (map (λ e. e.1) (reverse stack))

-- `d[k] = v`: a second table at the same position takes the place of the first.
unfoldable pub put_table : ℕ → TableItem → List (ℕ × TableItem) → List (ℕ × TableItem)
put_table k v [] = (k, v) ∷ []
put_table k v ((j, w) ∷ d) = if j == k then (k, v) ∷ d else (j, w) ∷ put_table k v d

unfoldable pub table_at : ℕ → List (ℕ × TableItem) → Option TableItem
table_at k [] = none
table_at k ((j, w) ∷ d) = if j == k then some w else table_at k d

abbrev separator_length : ℕ
separator_length = 2

module _ (count_tokens : Text → ℕ) where
  unfoldable pub add_heading : DocumentNode → Flat → Flat
  unfolding pop_to section_path
  add_heading node f =
      let level = level_of node.level in
      let stack : List (ℕ × Text) = (level, node.text) ∷ pop_to level f.heading_stack in
      record f {
        sentences =
            f.sentences
            ++ (record {
              text = node.text;
              section_path = section_path stack;
              page = node.page;
              char_start = f.offset;
              char_end = f.offset + length node.text;
              starts_new_top_level_section = level == 1;
              token_count = count_tokens node.text;
            }
                ∷ []);
        heading_stack = stack;
        offset = f.offset + length node.text + separator_length;
      }

  unfoldable pub add_table : DocumentNode → Flat → Flat
  unfolding section_path put_table
  add_table node f = record f {
    table_positions =
        put_table (length f.sentences)
          (record {
            text = node.text;
            section_path = section_path f.heading_stack;
            page = node.page;
            char_start = f.offset;
            char_end = f.offset + length node.text;
          })
          f.table_positions;
    offset = f.offset + length node.text + separator_length;
  }

  unfoldable pub paragraph_sentence : Option ℕ → Text → ℕ → Span → Sentence
  paragraph_sentence page path node_start s = record {
    text = s.sentence;
    section_path = path;
    page = page;
    char_start = node_start + s.start;
    char_end = node_start + s.end;
    starts_new_top_level_section = false;
    token_count = count_tokens s.sentence;
  }

  unfoldable pub add_paragraph : DocumentNode → Flat → Flat
  unfolding section_path paragraph_sentence split_sentences
  add_paragraph node f = record f {
    sentences =
        f.sentences
        ++ map (paragraph_sentence node.page (section_path f.heading_stack) f.offset)
            (split_sentences node.text);
    offset = f.offset + length node.text + separator_length;
  }

  unfoldable pub add_node : NodeKind → DocumentNode → Flat → Flat
  unfolding add_heading add_table add_paragraph
  add_node heading node f = add_heading node f
  add_node table node f = add_table node f
  add_node paragraph node f = add_paragraph node f

  unfoldable pub flatten_to_sentences : Flat → List DocumentNode → Flat
  unfolding add_node
  flatten_to_sentences f [] = f
  flatten_to_sentences f (node ∷ nodes) = flatten_to_sentences (add_node node.kind node f) nodes

abbrev pub empty_flat : Flat
empty_flat = record { sentences = []; table_positions = []; heading_stack = []; offset = 0 }

-- The table at a position, if there is one.
abbrev table_items : Option TableItem → List Item
table_items none = []
table_items (some t) = table_item t ∷ []

-- `_interleave`, from the sentence with this index on.
unfoldable pub interleave : ℕ → List Sentence → List (ℕ × TableItem) → List Item
unfolding table_at
interleave index [] tables = table_items (table_at index tables)
interleave index (s ∷ sentences) tables =
    table_items (table_at index tables) ++ (sentence s ∷ interleave (suc index) sentences tables)

unfoldable pub flatten_to_items : (Text → ℕ) → List DocumentNode → List Item
unfolding flatten_to_sentences interleave
flatten_to_items count_tokens nodes =
    let f = flatten_to_sentences count_tokens empty_flat nodes in
    interleave 0 f.sentences f.table_positions

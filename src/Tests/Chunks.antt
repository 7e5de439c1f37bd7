-- ===== src/Tests/Chunks.antt =====
-- Runs of the chunker, with a tokenizer that counts characters.
use aether_ai_workspace.Base.{
  ℕ, ◌≡◌, ◌<◌, refl, inl, inr, Bool, true, false, none, some, List, [], ◌∷◌, Text, codes, length,
  All, Any, arith,
}
use aether_ai_workspace.Chunking.Sentences.{split_sentences}
use aether_ai_workspace.Chunking.Sentences.Offsets.{
  slice, solid, sentences_of, split_sentences_complete,
}
use aether_ai_workspace.Chunking.Flatten.{
  DocumentNode, table, Sentence, Item, sentence, empty_flat, flatten_to_sentences,
}
use aether_ai_workspace.Chunking.Flatten.Tables.{skip_table, flatten-drops_table}
use aether_ai_workspace.Chunking.Pack.{draft, pack, hard_max_tokens}
use aether_ai_workspace.Chunking.Pack.Bounds.{Bounded, pack-le_hard_max, pack-exceeds}
use aether_ai_workspace.Chunking.Pack.Cover.{Holds, pack-Holds}
use aether_ai_workspace.Chunking.Pack.Sections.{IsOfOneSection, pack-OneSection}

abbrev paragraph_text : Text
paragraph_text = codes "One here.  Two there! Three?"

split_sentences_complete_example :
    All (λ s. slice s.start s.end paragraph_text ≡ s.sentence) (split_sentences paragraph_text)
    × (solid (sentences_of (split_sentences paragraph_text)) ≡ solid paragraph_text)
split_sentences_complete_example = split_sentences_complete paragraph_text

abbrev count_tokens : Text → ℕ
count_tokens text = length text

abbrev table_node : Text → DocumentNode
table_node text = record { kind = table; text = text; level = none; page = none }

flatten-drops_table_example :
    flatten_to_sentences count_tokens empty_flat
      (table_node (codes "a | b") ∷ table_node (codes "c | d") ∷ [])
    ≡ flatten_to_sentences count_tokens
        (skip_table (table_node (codes "a | b")) empty_flat)
        (table_node (codes "c | d") ∷ [])
flatten-drops_table_example =
    flatten-drops_table count_tokens empty_flat (table_node (codes "a | b"))
      (table_node (codes "c | d")) [] refl refl

abbrev of_tokens : ℕ → Bool → Sentence
of_tokens n starts = record {
  text = codes "text";
  section_path = codes "path";
  page = some 1;
  char_start = 0;
  char_end = 4;
  starts_new_top_level_section = starts;
  token_count = n;
}

abbrev items : List Item
items =
    sentence (of_tokens 3 true)
    ∷ sentence (of_tokens 300 false)
    ∷ sentence (of_tokens 300 false)
    ∷ sentence (of_tokens 2 true)
    ∷ []

pack-le_hard_max_example : All (Bounded count_tokens) (pack count_tokens items)
pack-le_hard_max_example =
    pack-le_hard_max count_tokens items
      (omega arith, (omega arith, (omega arith, (omega arith, tt))))

pack-exceeds_example :
    Any
      (λ c.
        (c ≡ draft (of_tokens 500 false) (of_tokens 500 false ∷ []))
        × (hard_max_tokens < c.token_count))
      (pack count_tokens (sentence (of_tokens 500 false) ∷ sentence (of_tokens 500 false) ∷ []))
pack-exceeds_example =
    pack-exceeds count_tokens (of_tokens 500 false) (of_tokens 500 false) (omega arith)
      (omega arith) refl (omega arith)

pack-Holds_example : Any (Holds (of_tokens 300 false)) (pack count_tokens items)
pack-Holds_example = pack-Holds (of_tokens 300 false) count_tokens items (inr (inl refl))

pack-OneSection_example : All (IsOfOneSection items count_tokens) (pack count_tokens items)
pack-OneSection_example = pack-OneSection count_tokens items

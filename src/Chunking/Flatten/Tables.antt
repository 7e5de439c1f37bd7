-- ===== src/Chunking/Flatten/Tables.antt =====
-- Of two tables with no sentence between them only the second reaches the chunks.
use aether_ai_workspace.Base.{ℕ, ◌+◌, ◌≡◌, List, [], ◌∷◌, arith, Text, ap, length, ==_refl}
use aether_ai_workspace.Chunking.Flatten.{
  table, DocumentNode, TableItem, Flat, put_table, add_table, flatten_to_sentences, add_node,
}

put_table-twice :
    (k : ℕ) (v w : TableItem) (d : List (ℕ × TableItem))
    → put_table k w (put_table k v d) ≡ put_table k w d
unfolding put_table
put_table-twice k v w [] = ground (arith, ==_refl k)
put_table-twice k v w ((j, u) ∷ d) = ground (arith, put_table-twice k v w d, ==_refl k)

-- The text between two tables counts for the offsets only.
abbrev pub skip_table : DocumentNode → Flat → Flat
skip_table node f = record f { offset = f.offset + length node.text + 2 }

add_table-twice :
    (count_tokens : Text → ℕ) (a b : DocumentNode) (f : Flat)
    → add_table count_tokens b (add_table count_tokens a f)
      ≡ add_table count_tokens b (skip_table a f)
unfolding add_table
add_table-twice count_tokens a b f =
    ap
      (λ d. record {
        sentences = f.sentences;
        table_positions = d;
        heading_stack = f.heading_stack;
        offset = f.offset + length a.text + 2 + length b.text + 2;
      })
      (put_table-twice (length f.sentences) _ _ f.table_positions)

-- A table that is followed by another table at once leaves no trace but its length: its text reaches
-- no item, whatever stands in front of the two tables and behind them.
pub flatten-drops_table :
    (count_tokens : Text → ℕ) (f : Flat) (a b : DocumentNode) (nodes : List DocumentNode)
    → a.kind ≡ table
    → b.kind ≡ table
    → flatten_to_sentences count_tokens f (a ∷ b ∷ nodes)
      ≡ flatten_to_sentences count_tokens (skip_table a f) (b ∷ nodes)
unfolding flatten_to_sentences add_node
flatten-drops_table count_tokens f a b nodes ea eb =
    rw (ea, eb)
      (ap (λ g. flatten_to_sentences count_tokens g nodes) (add_table-twice count_tokens a b f))

-- ===== src/Chunking.antt =====
-- Structure-aware chunking, under apps/api/src/aether/app/ingestion: document_tree.py and chunking.py.
-- The tokenizer is a library: its count of a text's tokens is the parameter `count_tokens`.
pub mod Sentences
pub mod Flatten
pub mod Pack
use aether_ai_workspace.Base.{ℕ, List, Text}
use aether_ai_workspace.Domain.Entities.{ChunkDraft}
use Flatten.{DocumentNode, flatten_to_items}
use Pack.{pack}

-- `chunk_document`
unfoldable pub chunk_document : (Text → ℕ) → List DocumentNode → List ChunkDraft
unfolding pack flatten_to_items
chunk_document count_tokens nodes = pack count_tokens (flatten_to_items count_tokens nodes)

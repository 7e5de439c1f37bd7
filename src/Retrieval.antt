-- ===== src/Retrieval.antt =====
-- Query rewriting, hybrid search and the refusal gate: apps/api/src/aether/app/retrieval, with the
-- records of ports/retrieval.py. The search backends, the embedder and the rewriter are parameters; an
-- exception of theirs that the source does not catch is not modelled.
pub mod Floats
pub mod Fusion
pub mod Selection
pub mod Search
pub mod Ids
pub mod Rounds
pub mod Selected
pub mod Answers

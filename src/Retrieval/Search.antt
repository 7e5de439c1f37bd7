-- ===== src/Retrieval/Search.antt =====
-- `HybridSearch.search` (app/retrieval/hybrid_search.py), `QueryRewriter.build_dual_feed_query`
-- (query_rewrite.py) and `RetrievalGate.evaluate` (refusal_gate.py), under apps/api/src/aether.
use aether_ai_workspace.Base.{
  ℕ, Bool, true, false, not, Option, none, some, List, [], ◌∷◌, map, Text, text_eq, take,
  if◌then◌else◌,
}
use aether_ai_workspace.Domain.Entities.{Uuid, Message}
use aether_ai_workspace.Retrieval.Floats.{Floats}
use aether_ai_workspace.Retrieval.Fusion.{ChunkSearchResult, reciprocal_rank_fusion}
use aether_ai_workspace.Retrieval.Selection.{RankedChunk, mmr_select}

abbrev pub vector_leg_limit : ℕ
vector_leg_limit = 20

abbrev pub lexical_leg_limit : ℕ
lexical_leg_limit = 20

abbrev pub mmr_candidate_pool : ℕ
mmr_candidate_pool = 20

abbrev pub default_k : ℕ
default_k = 6

pub record DualFeedQuery : Type 0 where
  pub vector_query : Text
  pub lexical_queries : List Text

-- On the rewriter's answer; `none` is its exception or its timeout.
unfoldable pub feed : Text → Option Text → DualFeedQuery
feed raw_query none = record { vector_query = raw_query; lexical_queries = raw_query ∷ [] }
feed raw_query (some rewritten) =
    if text_eq rewritten raw_query
    then record { vector_query = rewritten; lexical_queries = raw_query ∷ [] }
    else record { vector_query = rewritten; lexical_queries = raw_query ∷ rewritten ∷ [] }

-- `build_dual_feed_query`, with the rewriter's `rewrite`.
unfoldable pub build_dual_feed_query :
    (List Message → Text → Option Text) → List Message → Text → DualFeedQuery
unfolding feed
build_dual_feed_query rewrite [] raw_query = record {
  vector_query = raw_query;
  lexical_queries = raw_query ∷ [];
}
build_dual_feed_query rewrite (m ∷ history) raw_query =
    feed raw_query (rewrite (m ∷ history) raw_query)

-- `lexical_queries or [query]`
unfoldable pub lexical_or : Text → Option (List Text) → List Text
lexical_or query none = query ∷ []
lexical_or query (some []) = query ∷ []
lexical_or query (some (q ∷ qs)) = q ∷ qs

module _ (fl : Floats) where
  -- The embedder and `ChunkSearchPort`; `none` is the ChunkSearchUnavailableError.
  pub record SearchPorts : Type 0 where
    pub embed : Text → List fl.Float
    pub search_vector : Uuid → List fl.Float → ℕ → Option (List (ChunkSearchResult fl))
    pub search_lexical : Uuid → Text → ℕ → List (ChunkSearchResult fl)

  pub record RetrievalResult : Type 0 where
    pub chunks : List (RankedChunk fl)
    pub degraded : Bool

  pub record GateDecision : Type 0 where
    pub passed : Bool
    pub top_score : Option fl.Float

  -- The vector leg's results, and whether it was unavailable.
  unfoldable pub vector_leg :
      Option (List (ChunkSearchResult fl)) → List (ChunkSearchResult fl) × Bool
  vector_leg none = ([], true)
  vector_leg (some results) = (results, false)

  -- The fused and selected chunks of both legs; `none` is the ValueError of `mmr_select`.
  unfoldable pub select_fused :
      ℕ
      → List (ChunkSearchResult fl) × Bool
      → List (List (ChunkSearchResult fl))
      → Option RetrievalResult
  unfolding reciprocal_rank_fusion mmr_select
  select_fused k (vector_results, degraded) lexical_result_lists =
      elim (mmr_select fl k (
        take mmr_candidate_pool
          (reciprocal_rank_fusion fl (vector_results ∷ lexical_result_lists)))) [
            | none ↦ none
            | some chunks ↦ some (record { chunks = chunks; degraded = degraded })
          ]

  unfoldable pub search :
      SearchPorts → Uuid → Text → Option (List Text) → ℕ → Option RetrievalResult
  unfolding vector_leg lexical_or select_fused
  search ports w query lexical_queries k =
      select_fused k (vector_leg (ports.search_vector w (ports.embed query) vector_leg_limit))
        (map (λ q. ports.search_lexical w q lexical_leg_limit) (lexical_or query lexical_queries))

  -- `top_score >= self._threshold` is the negation of `less` but for a score or a threshold that
  -- is not a number.
  unfoldable pub evaluate : fl.Float → List (RankedChunk fl) → GateDecision
  evaluate threshold [] = record { passed = false; top_score = none }
  evaluate threshold (c ∷ chunks) = record {
    passed = not (fl.less c.fused_score threshold);
    top_score = some c.fused_score;
  }

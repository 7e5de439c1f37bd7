-- ===== src/Retrieval/Fusion.antt =====
-- `_reciprocal_rank_fusion` of apps/api/src/aether/app/retrieval/hybrid_search.py.
use aether_ai_workspace.Base.{ℕ, suc, ◌+◌, Option, List, [], ◌∷◌, Text, ◌==◌, if◌then◌else◌}
use aether_ai_workspace.Domain.Entities.{Uuid}
use aether_ai_workspace.Retrieval.Floats.{Floats}

abbrev pub rrf_constant : ℕ
rrf_constant = 60

module _ (fl : Floats) where
  pub record ChunkSearchResult : Type 0 where
    pub chunk_id : Uuid
    pub document_id : Uuid
    pub document_title : Text
    pub section_path : Text
    pub page_start : Option ℕ
    pub page_end : Option ℕ
    pub content : Text
    pub embedding : Option (List fl.Float)
    pub score : fl.Float

  -- The entries of `first_seen` and `scores` for one chunk: both dicts get their keys together.
  pub record Fused : Type 0 where
    pub result : ChunkSearchResult
    pub fused_score : fl.Float

  -- `1.0 / (_RRF_CONSTANT + rank)`
  abbrev pub rank_score : ℕ → fl.Float
  rank_score rank = fl.over fl.one_float (fl.of_int (rrf_constant + rank))

  -- One result: its score is added to the chunk's entry, or to a new one of 0.0.
  unfoldable pub add_result : ℕ → ChunkSearchResult → List Fused → List Fused
  add_result rank r [] =
      record { result = r; fused_score = fl.plus fl.zero_float (rank_score rank) } ∷ []
  add_result rank r (e ∷ es) =
      let rest = add_result rank r es in
      if e.result.chunk_id == r.chunk_id
      then record { result = e.result; fused_score = fl.plus e.fused_score (rank_score rank) } ∷ es
      else e ∷ rest

  -- `for rank, result in enumerate(results, start=1)`
  unfoldable pub add_results : ℕ → List ChunkSearchResult → List Fused → List Fused
  unfolding add_result
  add_results rank [] es = es
  add_results rank (r ∷ rs) es = add_results (suc rank) rs (add_result rank r es)

  unfoldable pub add_lists : List (List ChunkSearchResult) → List Fused → List Fused
  unfolding add_results
  add_lists [] es = es
  add_lists (rs ∷ lists) es = add_lists lists (add_results 1 rs es)

  -- `sorted(..., reverse=True)`, which keeps the order of equal scores.
  unfoldable pub insert_ranked : Fused → List Fused → List Fused
  insert_ranked e [] = e ∷ []
  insert_ranked e (x ∷ xs) =
      let rest = insert_ranked e xs in
      if fl.less e.fused_score x.fused_score then x ∷ rest else e ∷ x ∷ xs

  unfoldable pub sort_ranked : List Fused → List Fused
  unfolding insert_ranked
  sort_ranked [] = []
  sort_ranked (e ∷ es) = insert_ranked e (sort_ranked es)

  unfoldable pub reciprocal_rank_fusion : List (List ChunkSearchResult) → List Fused
  unfolding add_lists sort_ranked
  reciprocal_rank_fusion lists = sort_ranked (add_lists lists [])

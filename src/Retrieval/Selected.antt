-- ===== src/Retrieval/Selected.antt =====
-- What `HybridSearch.search` (apps/api/src/aether/app/retrieval/hybrid_search.py) returns.
use aether_ai_workspace.Base.{
  ℕ, zero, suc, ◌≡◌, inl, inr, refl, List, [], ◌∷◌, ◌==◌, map, take, All, Bool-cases,
}
use aether_ai_workspace.Retrieval.Floats.{Floats}
use aether_ai_workspace.Retrieval.Fusion.{
  ChunkSearchResult, Fused, add_result, add_results, add_lists, insert_ranked, sort_ranked,
  reciprocal_rank_fusion,
}
use aether_ai_workspace.Retrieval.Selection.{Candidate, RankedChunk, to_candidates, ranked}

module _ (fl : Floats) (Q : ChunkSearchResult fl → Type 0) where
  abbrev pub Entry : Fused fl → Type 0
  Entry e = Q e.result

  add_result-All :
      (rank : ℕ) (r : ChunkSearchResult fl) (es : List (Fused fl))
      → Q r
      → All Entry es
      → All Entry (add_result fl rank r es)
  unfolding add_result
  add_result-All rank r [] q h = (q, tt)
  add_result-All rank r (e ∷ es) q h = elim (Bool-cases (e.result.chunk_id == r.chunk_id)) [
    | inl here ↦ rw here h
    | inr other ↦ rw other (h.0, add_result-All rank r es q h.1)
  ]

  add_results-All :
      (rank : ℕ) (rs : List (ChunkSearchResult fl)) (es : List (Fused fl))
      → All Q rs
      → All Entry es
      → All Entry (add_results fl rank rs es)
  unfolding add_results
  add_results-All rank [] es q h = h
  add_results-All rank (r ∷ rs) es q h =
      add_results-All (suc rank) rs (add_result fl rank r es) q.1 (add_result-All rank r es q.0 h)

  add_lists-All :
      (lists : List (List (ChunkSearchResult fl))) (es : List (Fused fl))
      → All (All Q) lists
      → All Entry es
      → All Entry (add_lists fl lists es)
  unfolding add_lists
  add_lists-All [] es q h = h
  add_lists-All (rs ∷ lists) es q h =
      add_lists-All lists (add_results fl 1 rs es) q.1 (add_results-All 1 rs es q.0 h)

  insert_ranked-All :
      (e : Fused fl) (es : List (Fused fl))
      → Entry e
      → All Entry es
      → All Entry (insert_ranked fl e es)
  unfolding insert_ranked
  insert_ranked-All e [] q h = (q, tt)
  insert_ranked-All e (y ∷ es) q h = elim (Bool-cases (fl.less e.fused_score y.fused_score)) [
    | inl after ↦ rw after (h.0, insert_ranked-All e es q h.1)
    | inr here ↦ rw here (q, h)
  ]

  sort_ranked-All : (es : List (Fused fl)) → All Entry es → All Entry (sort_ranked fl es)
  unfolding sort_ranked
  sort_ranked-All [] h = tt
  sort_ranked-All (e ∷ es) h = insert_ranked-All e (sort_ranked fl es) h.0 (sort_ranked-All es h.1)

  take-All : (n : ℕ) (es : List (Fused fl)) → All Entry es → All Entry (take n es)
  take-All zero es h = tt
  take-All (suc n) [] h = tt
  take-All (suc n) (e ∷ es) h = (h.0, take-All n es h.1)

  -- Every fused entry is a result of the lists.
  pub fusion-All :
      (n : ℕ) (lists : List (List (ChunkSearchResult fl)))
      → All (All Q) lists
      → All Entry (take n (reciprocal_rank_fusion fl lists))
  unfolding reciprocal_rank_fusion
  fusion-All n lists q =
      take-All n (reciprocal_rank_fusion fl lists)
        (sort_ranked-All (add_lists fl lists []) (add_lists-All lists [] q tt))

  pub to_candidates-All :
      (es : List (Fused fl)) (vs : List fl.Float)
      → All Entry es
      → All (λ c. Q c.result) (to_candidates fl es vs)
  unfolding to_candidates
  to_candidates-All [] vs h = tt
  to_candidates-All (e ∷ es) [] h = tt
  to_candidates-All (e ∷ es) (v ∷ vs) h = (h.0, to_candidates-All es vs h.1)

  -- A returned chunk has all that one of the results says of it; its score is the fused one.
  abbrev pub IsFrom : RankedChunk fl → Type 0
  IsFrom c =
      (r : ChunkSearchResult fl) × Q r
      × (c.chunk_id ≡ r.chunk_id)
      × (c.document_id ≡ r.document_id)
      × (c.document_title ≡ r.document_title)
      × (c.section_path ≡ r.section_path)
      × (c.page_start ≡ r.page_start)
      × (c.page_end ≡ r.page_end)
      × (c.content ≡ r.content)

  pub ranked-All :
      (cs : List (Candidate fl)) → All (λ c. Q c.result) cs → All IsFrom (map (ranked fl) cs)
  unfolding ranked
  ranked-All [] h = tt
  ranked-All (c ∷ cs) h =
      ((c.result, h.0, refl, refl, refl, refl, refl, refl, refl), ranked-All cs h.1)

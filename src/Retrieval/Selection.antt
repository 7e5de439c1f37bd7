-- ===== src/Retrieval/Selection.antt =====
-- `_mmr_select`, `_normalize` and `_cosine_similarity` of
-- apps/api/src/aether/app/retrieval/hybrid_search.py.
use aether_ai_workspace.Base.{
  ℕ, zero, suc, ◌||◌, Option, none, some, List, [], ◌∷◌, ◌++◌, map, Text, if◌then◌else◌,
}
use aether_ai_workspace.Domain.Entities.{Uuid}
use aether_ai_workspace.Retrieval.Floats.{Floats}
use aether_ai_workspace.Retrieval.Fusion.{ChunkSearchResult, Fused}

module _ (fl : Floats) where
  pub record RankedChunk : Type 0 where
    pub chunk_id : Uuid
    pub document_id : Uuid
    pub document_title : Text
    pub section_path : Text
    pub page_start : Option ℕ
    pub page_end : Option ℕ
    pub content : Text
    pub fused_score : fl.Float

  -- The tuple of a result, its score and its normalized relevance.
  pub record Candidate : Type 0 where
    pub result : ChunkSearchResult fl
    pub raw_score : fl.Float
    pub relevance : fl.Float

  -- Python's `min` and `max` keep the first of equal values.
  unfoldable pub min_float : fl.Float → List fl.Float → fl.Float
  min_float m [] = m
  min_float m (x ∷ xs) = min_float (if fl.less x m then x else m) xs

  unfoldable pub max_float : fl.Float → List fl.Float → fl.Float
  max_float m [] = m
  max_float m (x ∷ xs) = max_float (if fl.less m x then x else m) xs

  -- `_normalize`, with the bounds that it found.
  unfoldable pub scale_to : fl.Float → fl.Float → List fl.Float → List fl.Float
  scale_to lo hi values =
      if fl.same hi lo
      then map (λ v. fl.one_float) values
      else map (λ v. fl.over (fl.minus v lo) (fl.minus hi lo)) values

  unfoldable pub normalize : List fl.Float → List fl.Float
  unfolding scale_to min_float max_float
  normalize [] = []
  normalize (v ∷ vs) = scale_to (min_float v vs) (max_float v vs) (v ∷ vs)

  unfoldable pub sum_from : fl.Float → List fl.Float → fl.Float
  sum_from acc [] = acc
  sum_from acc (x ∷ xs) = sum_from (fl.plus acc x) xs

  -- `zip(a, b, strict=True)` multiplied out; `none` is its ValueError.
  unfoldable pub products : List fl.Float → List fl.Float → Option (List fl.Float)
  products [] [] = some []
  products (x ∷ xs) (y ∷ ys) = elim (products xs ys) [
    | none ↦ none
    | some ps ↦ some (fl.times x y ∷ ps)
  ]
  products _ _ = none

  unfoldable pub norm : List fl.Float → fl.Float
  unfolding sum_from
  norm xs = fl.sqrt (sum_from fl.zero_float (map (λ x. fl.times x x) xs))

  unfoldable pub cosine_similarity :
      Option (List fl.Float) → Option (List fl.Float) → Option fl.Float
  unfolding products norm sum_from
  cosine_similarity none b = some fl.zero_float
  cosine_similarity (some a) none = some fl.zero_float
  cosine_similarity (some a) (some b) = elim (products a b) [
    | none ↦ none
    | some ps ↦ some (
        if fl.same (norm a) fl.zero_float || fl.same (norm b) fl.zero_float
        then fl.zero_float
        else fl.over (sum_from fl.zero_float ps) (fl.times (norm a) (norm b)))
  ]

  -- The similarities to the chosen ones.
  unfoldable pub similarities : ChunkSearchResult fl → List Candidate → Option (List fl.Float)
  unfolding cosine_similarity
  similarities r [] = some []
  similarities r (c ∷ chosen) = elim (cosine_similarity r.embedding c.result.embedding) [
    | none ↦ none
    | some s ↦ elim (similarities r chosen) [ none ↦ none | some ss ↦ some (s ∷ ss) ]
  ]

  -- `max(..., default=0.0)`
  abbrev pub max_default : List fl.Float → fl.Float
  max_default [] = fl.zero_float
  max_default (s ∷ ss) = max_float s ss

  unfoldable pub mmr_score : Candidate → List Candidate → Option fl.Float
  unfolding similarities max_float
  mmr_score c chosen = elim (similarities c.result chosen) [
    | none ↦ none
    | some ss ↦ some (
        fl.minus (fl.times fl.half c.relevance)
          (fl.times (fl.minus fl.one_float fl.half) (max_default ss)))
  ]

  -- The loop for the best index, which starts at 0 with a score of minus infinity.
  unfoldable pub best_from : ℕ → List Candidate → List Candidate → ℕ → fl.Float → Option ℕ
  unfolding mmr_score
  best_from index [] chosen best_index best_score = some best_index
  best_from index (c ∷ cs) chosen best_index best_score = elim (mmr_score c chosen) [
    | none ↦ none
    | some score ↦
        if fl.less best_score score
        then best_from (suc index) cs chosen index score
        else best_from (suc index) cs chosen best_index best_score
  ]

  -- `candidates.pop(i)`; `none` is its IndexError.
  unfoldable pub pop_at : ℕ → List Candidate → Option (Candidate × List Candidate)
  pop_at i [] = none
  pop_at zero (c ∷ cs) = some (c, cs)
  pop_at (suc i) (c ∷ cs) = elim (pop_at i cs) [ none ↦ none | some (d, rest) ↦ some (d, c ∷ rest) ]

  -- One round of the loop.
  unfoldable pub pop_best : List Candidate → List Candidate → Option (Candidate × List Candidate)
  unfolding best_from pop_at
  pop_best candidates selected = elim (best_from 0 candidates selected 0 fl.negative_infinity) [
    | none ↦ none
    | some i ↦ pop_at i candidates
  ]

  -- `while candidates and len(selected) < k`, with the number of rounds that are left.
  unfoldable pub select_rounds : ℕ → List Candidate → List Candidate → Option (List Candidate)
  unfolding pop_best
  select_rounds zero candidates selected = some selected
  select_rounds (suc n) [] selected = some selected
  select_rounds (suc n) (c ∷ cs) selected = elim (pop_best (c ∷ cs) selected) [
    | none ↦ none
    | some (best, rest) ↦ select_rounds n rest (selected ++ (best ∷ []))
  ]

  unfoldable pub to_candidates : List (Fused fl) → List fl.Float → List Candidate
  to_candidates (e ∷ es) (v ∷ vs) =
      record { result = e.result; raw_score = e.fused_score; relevance = v } ∷ to_candidates es vs
  to_candidates _ _ = []

  unfoldable pub ranked : Candidate → RankedChunk
  ranked c = record {
    chunk_id = c.result.chunk_id;
    document_id = c.result.document_id;
    document_title = c.result.document_title;
    section_path = c.result.section_path;
    page_start = c.result.page_start;
    page_end = c.result.page_end;
    content = c.result.content;
    fused_score = c.raw_score;
  }

  -- `none` is the ValueError of embeddings of different lengths.
  unfoldable pub mmr_select : ℕ → List (Fused fl) → Option (List RankedChunk)
  unfolding to_candidates normalize select_rounds ranked
  mmr_select k fused =
      elim (select_rounds k (to_candidates fused (normalize (map (λ e. e.fused_score) fused))) []) [
        | none ↦ none
        | some selected ↦ some (map ranked selected)
      ]

-- ===== src/Retrieval/Answers.antt =====
-- `HybridSearch.search` of apps/api/src/aether/app/retrieval/hybrid_search.py as a whole.
use aether_ai_workspace.Base.{
  arith, ℕ, ◌≤◌, ◌≡◌, refl, Option, none, some, List, [], ◌∷◌, map, take, All, length, is_none,
  Text,
}
use aether_ai_workspace.Domain.Entities.{Uuid}
use aether_ai_workspace.Retrieval.Floats.{Floats}
use aether_ai_workspace.Retrieval.Fusion.{ChunkSearchResult, Fused, reciprocal_rank_fusion}
use aether_ai_workspace.Retrieval.Selection.{
  Candidate, RankedChunk, normalize, to_candidates, ranked, mmr_select,
}
use aether_ai_workspace.Retrieval.Search.{
  SearchPorts, RetrievalResult, vector_leg, select_fused, lexical_or, search, vector_leg_limit,
  lexical_leg_limit, mmr_candidate_pool,
}
use aether_ai_workspace.Retrieval.Ids.{count_id, entry_id, HasOneEntry, fusion-HasOneEntry}
use aether_ai_workspace.Retrieval.Rounds.{HasDimension, candidate_id, select_rounds-returns}
use aether_ai_workspace.Retrieval.Selected.{
  Entry, fusion-All, to_candidates-All, IsFrom, ranked-All,
}

module _ (fl : Floats) where
  to_candidates-counts :
      (d : ℕ) (es : List (Fused fl)) (vs : List fl.Float) (x : Uuid)
      → count_id (candidate_id fl d) x (to_candidates fl es vs) ≤ count_id (entry_id fl) x es
  unfolding to_candidates
  to_candidates-counts d [] vs x = omega arith
  to_candidates-counts d (e ∷ es) [] x = omega arith
  to_candidates-counts d (e ∷ es) (v ∷ vs) x = omega (arith, to_candidates-counts d es vs x)

  abbrev pub chunk_id_of : RankedChunk fl → Uuid
  chunk_id_of c = c.chunk_id

  ranked-counts :
      (d : ℕ) (cs : List (Candidate fl)) (x : Uuid)
      → count_id chunk_id_of x (map (ranked fl) cs) ≡ count_id (candidate_id fl d) x cs
  unfolding ranked
  ranked-counts d [] x = refl
  ranked-counts d (c ∷ cs) x = omega (arith, ranked-counts d cs x)

  ranked-length : (cs : List (Candidate fl)) → length (map (ranked fl) cs) ≡ length cs
  ranked-length [] = refl
  ranked-length (c ∷ cs) = omega (arith, ranked-length cs)

  -- What a selection of at most `k` chunks is.
  abbrev pub IsSelection : (ChunkSearchResult fl → Type 0) → ℕ → List (RankedChunk fl) → Type 0
  IsSelection Q k chunks =
      (length chunks ≤ k)
      × ((x : Uuid) → count_id chunk_id_of x chunks ≤ 1)
      × All (IsFrom fl Q) chunks

  module _ (d : ℕ) (Q : ChunkSearchResult fl → Type 0)
      (keeps_dimension : (r : ChunkSearchResult fl) → Q r → HasDimension fl d r.embedding) where
    mmr_select-IsSelection :
        (k : ℕ) (es : List (Fused fl))
        → HasOneEntry fl es
        → All (Entry fl Q) es
        → (chunks : List (RankedChunk fl)) × (mmr_select fl k es ≡ some chunks)
          × IsSelection Q k chunks
    unfolding mmr_select
    mmr_select-IsSelection k es one from =
        let vs = normalize fl (map (λ e. e.fused_score) es) in
        let cs = to_candidates fl es vs in
        let (out, done, grown, kept, all) =
          select_rounds-returns fl d (λ c. Q c.result) (λ c q. keeps_dimension c.result q) k cs []
            (to_candidates-All fl Q es vs from) tt in
        let long = ranked-length out in
        (
          map (ranked fl) out,
          rw (mmr_select, done) refl,
          (
            ground (arith, grown, long),
            (λ x.
                let le = kept x in
                let fewer = to_candidates-counts d es vs x in
                let same = ranked-counts d out x in
                let at_most = one x in omega (arith, le, fewer, same, at_most)),
            ranked-All fl Q out all,
          ),
        )

    lexical_All :
        (ports : SearchPorts fl) (w : Uuid) (queries : List Text)
        → ((q : Text) (n : ℕ) → All Q (ports.search_lexical w q n))
        → All (All Q) (map (λ q. ports.search_lexical w q lexical_leg_limit) queries)
    lexical_All ports w [] h = tt
    lexical_All ports w (q ∷ queries) h = (h q lexical_leg_limit, lexical_All ports w queries h)

    vector_All :
        (found : Option (List (ChunkSearchResult fl)))
        → ((rs : List (ChunkSearchResult fl)) → found ≡ some rs → All Q rs)
        → All Q (vector_leg fl found).0
    unfolding vector_leg
    vector_All none h = tt
    vector_All (some rs) h = h rs refl

    vector_degraded :
        (found : Option (List (ChunkSearchResult fl))) → (vector_leg fl found).1 ≡ is_none found
    unfolding vector_leg
    vector_degraded none = refl
    vector_degraded (some rs) = refl

    -- For a property of results by which every embedding that is there has one dimension, and that
    -- all results of both legs have: a search returns, with at most `k` chunks, none of them twice,
    -- each with the ids, titles, pages and content of a result with the property; and it is marked
    -- degraded if and only if the vector leg was unavailable.
    pub search-IsSelection :
        (ports : SearchPorts fl) (w : Uuid) (query : Text) (lexical_queries : Option (List Text))
        (k : ℕ)
        → ((rs : List (ChunkSearchResult fl))
            → ports.search_vector w (ports.embed query) vector_leg_limit ≡ some rs
            → All Q rs)
        → ((q : Text) (n : ℕ) → All Q (ports.search_lexical w q n))
        → (result : RetrievalResult fl) × (search fl ports w query lexical_queries k ≡ some result)
          × IsSelection Q k result.chunks
          × (result.degraded ≡ is_none (ports.search_vector w (ports.embed query) vector_leg_limit))
    unfolding search select_fused
    search-IsSelection ports w query lexical_queries k of_vector of_lexical =
        let found = ports.search_vector w (ports.embed query) vector_leg_limit in
        let queries = lexical_or query lexical_queries in
        let lists : List (List (ChunkSearchResult fl)) =
          (vector_leg fl found).0 ∷ map (λ q. ports.search_lexical w q lexical_leg_limit) queries in
        let from : All (All Q) lists =
          (vector_All found of_vector, lexical_All ports w queries of_lexical) in
        let (chunks, done, is_selection) =
          mmr_select-IsSelection k (take mmr_candidate_pool (reciprocal_rank_fusion fl lists))
            (fusion-HasOneEntry fl mmr_candidate_pool lists)
            (fusion-All fl Q mmr_candidate_pool lists from) in
        let result : RetrievalResult fl = record {
          chunks = chunks;
          degraded = (vector_leg fl found).1;
        } in
        (result, rw (search, select_fused, done) refl, is_selection, vector_degraded found)

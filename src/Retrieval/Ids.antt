-- ===== src/Retrieval/Ids.antt =====
-- `_reciprocal_rank_fusion` of apps/api/src/aether/app/retrieval/hybrid_search.py keeps one entry for a
-- chunk, and what holds of every result holds of every entry's.
use aether_ai_workspace.Base.{
  arith, ℕ, zero, suc, ◌+◌, ◌≤◌, ◌≡◌, ◌⊎◌, inl, inr, refl, Bool, false, List, [], ◌∷◌, ◌==◌, ==_iff,
  take, Bool-cases, if◌then◌else◌,
}
use aether_ai_workspace.Domain.Entities.{Uuid}
use aether_ai_workspace.Retrieval.Floats.{Floats}
use aether_ai_workspace.Retrieval.Fusion.{
  ChunkSearchResult, Fused, add_result, add_results, add_lists, insert_ranked, sort_ranked,
  reciprocal_rank_fusion,
}

abbrev pub one_if : Bool → ℕ
one_if b = if b then 1 else 0

-- How many elements have an id.
abbrev pub count_id {ℓ} : {A : Type ℓ} → (A → Uuid) → Uuid → List A → ℕ
count_id id x [] = 0
count_id id x (a ∷ rest) = one_if (id a == x) + count_id id x rest

module _ (fl : Floats) where
  abbrev pub entry_id : Fused fl → Uuid
  entry_id e = e.result.chunk_id

  abbrev pub HasOneEntry : List (Fused fl) → Type 0
  HasOneEntry es = (x : Uuid) → count_id entry_id x es ≤ 1

  -- An added result leaves the counts, or it is the first of its id.
  add_result-counts :
      (rank : ℕ) (r : ChunkSearchResult fl) (es : List (Fused fl)) (x : Uuid)
      → (count_id entry_id x (add_result fl rank r es) ≡ count_id entry_id x es)
        ⊎ ((r.chunk_id ≡ x)
            × (count_id entry_id x es ≡ 0)
            × (count_id entry_id x (add_result fl rank r es) ≡ 1))
  unfolding add_result
  add_result-counts rank r [] x = elim (Bool-cases (r.chunk_id == x)) [
    | inl e ↦ inr ((==_iff r.chunk_id x).0 e, refl, rw e (omega arith))
    | inr e ↦ inl (rw e (omega arith))
  ]
  add_result-counts rank r (e ∷ es) x = elim (Bool-cases (e.result.chunk_id == r.chunk_id)) [
    | inl here ↦ inl (rw here refl)
    | inr other ↦ elim (add_result-counts rank r es x) [
      | inl same ↦ inl (rw other (omega (arith, same)))
      | inr (own, none_yet, one) ↦
          let not_this : (e.result.chunk_id == x) ≡ false = rw⁻¹ own other in
          inr
            (own, rw not_this (omega (arith, none_yet)), rw (other, not_this) (omega (arith, one)))
    ]
  ]

  add_result-HasOneEntry :
      (rank : ℕ) (r : ChunkSearchResult fl) (es : List (Fused fl))
      → HasOneEntry es
      → HasOneEntry (add_result fl rank r es)
  add_result-HasOneEntry rank r es h x = elim (add_result-counts rank r es x) [
    | inl same ↦ let le = h x in omega (arith, same, le)
    | inr (own, none_yet, one) ↦ omega (arith, one)
  ]

  add_results-HasOneEntry :
      (rank : ℕ) (rs : List (ChunkSearchResult fl)) (es : List (Fused fl))
      → HasOneEntry es
      → HasOneEntry (add_results fl rank rs es)
  unfolding add_results
  add_results-HasOneEntry rank [] es h = h
  add_results-HasOneEntry rank (r ∷ rs) es h =
      add_results-HasOneEntry (suc rank) rs (add_result fl rank r es)
        (add_result-HasOneEntry rank r es h)

  add_lists-HasOneEntry :
      (lists : List (List (ChunkSearchResult fl))) (es : List (Fused fl))
      → HasOneEntry es
      → HasOneEntry (add_lists fl lists es)
  unfolding add_lists
  add_lists-HasOneEntry [] es h = h
  add_lists-HasOneEntry (rs ∷ lists) es h =
      add_lists-HasOneEntry lists (add_results fl 1 rs es) (add_results-HasOneEntry 1 rs es h)

  insert_ranked-counts :
      (e : Fused fl) (es : List (Fused fl)) (x : Uuid)
      → count_id entry_id x (insert_ranked fl e es) ≡ count_id entry_id x (e ∷ es)
  unfolding insert_ranked
  insert_ranked-counts e [] x = refl
  insert_ranked-counts e (y ∷ es) x = elim (Bool-cases (fl.less e.fused_score y.fused_score)) [
    | inl after ↦ rw after (omega (arith, insert_ranked-counts e es x))
    | inr here ↦ rw here refl
  ]

  sort_ranked-counts :
      (es : List (Fused fl)) (x : Uuid)
      → count_id entry_id x (sort_ranked fl es) ≡ count_id entry_id x es
  unfolding sort_ranked
  sort_ranked-counts [] x = refl
  sort_ranked-counts (e ∷ es) x =
      omega (arith, insert_ranked-counts e (sort_ranked fl es) x, sort_ranked-counts es x)

  take-counts :
      (n : ℕ) (es : List (Fused fl)) (x : Uuid)
      → count_id entry_id x (take n es) ≤ count_id entry_id x es
  take-counts zero es x = omega arith
  take-counts (suc n) [] x = omega arith
  take-counts (suc n) (e ∷ es) x = omega (arith, take-counts n es x)

  -- The fused results, cut off anywhere, have one entry for a chunk.
  pub fusion-HasOneEntry :
      (n : ℕ) (lists : List (List (ChunkSearchResult fl)))
      → HasOneEntry (take n (reciprocal_rank_fusion fl lists))
  unfolding reciprocal_rank_fusion
  fusion-HasOneEntry n lists x =
      let le = take-counts n (reciprocal_rank_fusion fl lists) x in
      let sorted = sort_ranked-counts (add_lists fl lists []) x in
      let one = add_lists-HasOneEntry lists [] (λ y. omega arith) x in
      omega (arith, le, sorted, one)

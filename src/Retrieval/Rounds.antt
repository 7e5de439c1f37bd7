-- ===== src/Retrieval/Rounds.antt =====
-- The rounds of `_mmr_select` (apps/api/src/aether/app/retrieval/hybrid_search.py) on embeddings of one
-- dimension: none raises, and each moves one candidate to the selection.
use aether_ai_workspace.Base.{
  leb, ◌||◌, arith, ℕ, zero, suc, ◌+◌, ◌≤◌, ◌<◌, ◌≡◌, inl, inr, refl, sym, ◌∙◌, Option, none, some,
  List, [], ◌∷◌, ◌++◌, ◌==◌, All, All-append, length, length-append, Bool-cases, if◌then◌else◌,
}
use aether_ai_workspace.Domain.Entities.{Uuid}
use aether_ai_workspace.Retrieval.Floats.{Floats}
use aether_ai_workspace.Retrieval.Fusion.{ChunkSearchResult}
use aether_ai_workspace.Retrieval.Selection.{
  norm, sum_from, max_default, Candidate, products, cosine_similarity, similarities, mmr_score,
  best_from, pop_at, pop_best, select_rounds,
}
use aether_ai_workspace.Retrieval.Ids.{one_if, count_id}

abbrev pub least : ℕ → ℕ → ℕ
least a b = if leb a b then a else b

module _ (fl : Floats) (d : ℕ) where
  abbrev pub candidate_id : Candidate fl → Uuid
  candidate_id c = c.result.chunk_id

  -- An embedding is missing, or it has the dimension `d`.
  abbrev pub HasDimension : Option (List fl.Float) → Type 0
  HasDimension none = Unit
  HasDimension (some v) = length v ≡ d

  products-returns :
      (xs ys : List fl.Float)
      → length xs ≡ length ys
      → (ps : List fl.Float) × (products fl xs ys ≡ some ps)
  unfolding products
  products-returns [] [] e = ([], refl)
  products-returns [] (y ∷ ys) e = ground arith
  products-returns (x ∷ xs) [] e = ground arith
  products-returns (x ∷ xs) (y ∷ ys) e =
      let (ps, done) = products-returns xs ys (omega arith) in (fl.times x y ∷ ps, rw done refl)

  cosine-returns :
      (a b : Option (List fl.Float))
      → HasDimension a
      → HasDimension b
      → (s : fl.Float) × (cosine_similarity fl a b ≡ some s)
  unfolding cosine_similarity
  cosine-returns none b ha hb = (fl.zero_float, refl)
  cosine-returns (some a) none ha hb = (fl.zero_float, refl)
  cosine-returns (some a) (some b) ha hb =
      let (ps, done) = products-returns a b (ha ∙ sym hb) in
      let similarity : fl.Float =
        if fl.same (norm fl a) fl.zero_float || fl.same (norm fl b) fl.zero_float
        then fl.zero_float
        else fl.over (sum_from fl fl.zero_float ps) (fl.times (norm fl a) (norm fl b)) in
      (similarity, rw (cosine_similarity, done) refl)

  abbrev pub OfDimension : Candidate fl → Type 0
  OfDimension c = HasDimension c.result.embedding

  similarities-returns :
      (r : ChunkSearchResult fl) (chosen : List (Candidate fl))
      → HasDimension r.embedding
      → All OfDimension chosen
      → (ss : List fl.Float) × (similarities fl r chosen ≡ some ss)
  unfolding similarities
  similarities-returns r [] hr hs = ([], refl)
  similarities-returns r (c ∷ chosen) hr hs =
      let (s, first) = cosine-returns r.embedding c.result.embedding hr hs.0 in
      let (ss, rest) = similarities-returns r chosen hr hs.1 in
      (s ∷ ss, rw (similarities, first, rest) refl)

  mmr_score-returns :
      (c : Candidate fl) (chosen : List (Candidate fl))
      → OfDimension c
      → All OfDimension chosen
      → (s : fl.Float) × (mmr_score fl c chosen ≡ some s)
  unfolding mmr_score
  mmr_score-returns c chosen hc hs =
      let (ss, done) = similarities-returns c.result chosen hc hs in
      let score : fl.Float =
        fl.minus (fl.times fl.half c.relevance)
          (fl.times (fl.minus fl.one_float fl.half) (max_default fl ss)) in
      (score, rw (mmr_score, done) refl)

  -- The best index is one of the candidates'.
  best_from-returns :
      (index : ℕ) (cs chosen : List (Candidate fl)) (best n : ℕ) (score : fl.Float)
      → All OfDimension cs
      → All OfDimension chosen
      → best < n
      → index + length cs ≤ n
      → (j : ℕ) × (best_from fl index cs chosen best score ≡ some j) × (j < n)
  unfolding best_from
  best_from-returns index [] chosen best n score hc hs lt le = (best, refl, lt)
  best_from-returns index (c ∷ cs) chosen best n score hc hs lt le =
      let (s, scored) = mmr_score-returns c chosen hc.0 hs in
      elim (Bool-cases (fl.less score s)) [
        | inl e ↦
            let (j, done, bound) =
              best_from-returns (suc index) cs chosen index n s hc.1 hs (omega arith)
                (omega arith) in
            (j, rw (best_from, scored, e) done, bound)
        | inr e ↦
            let (j, done, bound) =
              best_from-returns (suc index) cs chosen best n score hc.1 hs lt (omega arith) in
            (j, rw (best_from, scored, e) done, bound)
      ]

  module _ (P : Candidate fl → Type 0)
      (keeps_dimension : (c : Candidate fl) → P c → OfDimension c) where
    All-OfDimension : (cs : List (Candidate fl)) → All P cs → All OfDimension cs
    All-OfDimension [] h = tt
    All-OfDimension (c ∷ cs) h = (keeps_dimension c h.0, All-OfDimension cs h.1)

    -- What a candidate and the rest are to the list that they are taken from.
    abbrev pub Moves : List (Candidate fl) → Candidate fl → List (Candidate fl) → Type 0
    Moves cs c rest =
        (length cs ≡ suc (length rest))
        × ((x : Uuid)
            → count_id candidate_id x cs
              ≡ one_if (candidate_id c == x) + count_id candidate_id x rest)
        × P c
        × All P rest

    pop_at-Moves :
        (i : ℕ) (cs : List (Candidate fl))
        → i < length cs
        → All P cs
        → (c : Candidate fl) × (rest : List (Candidate fl)) × (pop_at fl i cs ≡ some (c, rest))
          × Moves cs c rest
    unfolding pop_at
    pop_at-Moves i [] lt h = ground arith
    pop_at-Moves zero (c ∷ cs) lt h = (c, cs, refl, (refl, (λ x. refl), h.0, h.1))
    pop_at-Moves (suc i) (c ∷ cs) lt h =
        let (e, rest, done, (long, counts, own, others)) = pop_at-Moves i cs (omega arith) h.1 in
        (
          e,
          c ∷ rest,
          rw (pop_at, done) refl,
          (
            omega (arith, long),
            (λ x. let same = counts x in omega (arith, same)),
            own,
            (h.0, others),
          ),
        )

    pop_best-Moves :
        (cs selected : List (Candidate fl))
        → 0 < length cs
        → All P cs
        → All P selected
        → (c : Candidate fl) × (rest : List (Candidate fl)) × (pop_best fl cs selected
            ≡ some (c, rest))
          × Moves cs c rest
    unfolding pop_best
    pop_best-Moves cs selected lt hc hs =
        let (j, best, bound) =
          best_from-returns 0 cs selected 0 (length cs) fl.negative_infinity (All-OfDimension cs hc)
            (All-OfDimension selected hs) lt (omega arith) in
        let (c, rest, done, moves) = pop_at-Moves j cs bound hc in
        (c, rest, rw (pop_best, best) done, moves)

    count-append :
        (xs : List (Candidate fl)) (c : Candidate fl) (x : Uuid)
        → count_id candidate_id x (xs ++ (c ∷ []))
          ≡ one_if (candidate_id c == x) + count_id candidate_id x xs
    count-append [] c x = refl
    count-append (y ∷ xs) c x = omega (arith, count-append xs c x)

    -- After `n` rounds: the selection has grown by `n`, or by all candidates.
    pub select_rounds-returns :
        (n : ℕ) (cs selected : List (Candidate fl))
        → All P cs
        → All P selected
        → (out : List (Candidate fl)) × (select_rounds fl n cs selected ≡ some out)
          × (length out ≡ length selected + least n (length cs))
          × ((x : Uuid)
              → count_id candidate_id x out
                ≤ count_id candidate_id x cs + count_id candidate_id x selected)
          × All P out
    unfolding select_rounds
    select_rounds-returns zero cs selected hc hs =
        (selected, refl, grind arith, (λ x. omega arith), hs)
    select_rounds-returns (suc n) [] selected hc hs =
        (selected, refl, grind arith, (λ x. omega arith), hs)
    select_rounds-returns (suc n) (c ∷ cs) selected hc hs =
        let (best, rest, popped, (long, counts, own, others)) =
          pop_best-Moves (c ∷ cs) selected (omega arith) hc hs in
        let (out, done, grown, kept, all) =
          select_rounds-returns n rest (selected ++ (best ∷ [])) others
            (All-append P selected (best ∷ []) hs (own, tt)) in
        let one_more = length-append selected (best ∷ []) in
        (
          out,
          rw (select_rounds, popped) done,
          ground (arith, grown, one_more, long),
          (λ x.
              let le = kept x in
              let moved = counts x in
              let added = count-append selected best x in omega (arith, le, moved, added)),
          all,
        )

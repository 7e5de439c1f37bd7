-- ===== src/Memory/Window.antt =====
-- What the split by the token budget promises.
use aether_ai_workspace.Base.{
  ℕ, ◌+◌, ◌≤◌, ◌<◌, ◌≡◌, refl, ◌⊎◌, inl, inr, true, false, ◌&&◌, ◌||◌, List, [], ◌∷◌, ◌++◌, Text,
  ltb, length, take, arith, Bool-cases, ◌∙◌, sym, ap, length-append, take-length-append,
  append_assoc, append-nil,
}
use mathlib.Core.Path.{ap₂}
use mathlib.Core.List.{reverse, reverse-reverse, reverse-cons}
use aether_ai_workspace.Domain.Entities.{Message}
use aether_ai_workspace.Memory.{window_token_budget, nonempty, walk, split_by_budget}

length-reverse : (l : List Message) → length (reverse l) ≡ length l
length-reverse [] = refl
length-reverse (m ∷ l) =
    omega
      (arith, ap length (reverse-cons m l), length-append (reverse l) (m ∷ []), length-reverse l)

nonempty-reverse : (l : List Message) → nonempty (reverse l) ≡ nonempty l
nonempty-reverse [] = refl
nonempty-reverse (m ∷ l) = go (reverse l) (reverse-cons m l)
  where
    go : (r : List Message) → reverse (m ∷ l) ≡ r ++ (m ∷ []) → nonempty (reverse (m ∷ l)) ≡ true
    go [] e = ap nonempty e
    go (n ∷ r) e = ap nonempty e

module _ (count_tokens : Text → ℕ) where
  unfoldable pub total : List Message → ℕ
  total [] = 0
  total (m ∷ ms) = count_tokens m.content + total ms

  -- The window fits into the budget, or is one message that alone does not.
  abbrev pub WithinBudget : List Message → Type 0
  WithinBudget [] = Unit
  WithinBudget (m ∷ []) = Unit
  WithinBudget (m ∷ n ∷ ms) = total (m ∷ n ∷ ms) ≤ window_token_budget

  -- The newest message left out would not have fitted any more.
  abbrev pub Overflows : List Message → List Message → Type 0
  Overflows left window =
      (left ≡ [])
      ⊎ ((before : List Message) × (m : Message) × (left ≡ before ++ (m ∷ []))
          × (window_token_budget < count_tokens m.content + total window))

  -- What the loop returns: the messages left, as a list, and why it stopped.
  record Walked (reversed window : List Message) (r : List Message × ℕ) : Type 0 where
    left : List Message
    split : reverse reversed ++ window ≡ left ++ r.0
    cutoff : r.1 ≡ length left
    fits : WithinBudget r.0
    full : Overflows left r.0
    kept : nonempty r.0 ≡ nonempty reversed || nonempty window

  pick :
      (m : Message) (window : List Message)
      → nonempty window && ltb window_token_budget (total window + count_tokens m.content) ≡ false
      → WithinBudget (m ∷ window)
  unfolding total
  pick m [] h = tt
  pick m (n ∷ window) h = ground arith

  walk-Walked :
      (reversed window : List Message) (sum : ℕ)
      → total window ≡ sum
      → WithinBudget window
      → Walked reversed window (walk count_tokens reversed window sum)
  unfolding walk
  walk-Walked [] window sum e w = record {
    left = [];
    split = refl;
    cutoff = refl;
    fits = w;
    full = inl refl;
    kept = refl;
  }
  walk-Walked (m ∷ older) window sum e w =
      elim (Bool-cases
        (nonempty window && ltb window_token_budget (sum + count_tokens m.content))) [
          | inl stops ↦ rw stops (record {
            left = reverse (m ∷ older);
            split = refl;
            cutoff = sym (length-reverse (m ∷ older));
            fits = w;
            full = inr (reverse older, m, reverse-cons m older, ground arith);
            kept = ground arith;
          })
          | inr goes_on ↦
              let next : total (m ∷ window) ≡ sum + count_tokens m.content =
                unfold total in omega arith in
              let r =
                walk-Walked older (m ∷ window) (sum + count_tokens m.content) next
                  (pick m window (rw e goes_on)) in
              rw goes_on (record {
                left = r.left;
                split =
                    ap (λ l. l ++ window) (reverse-cons m older)
                    ∙ append_assoc (reverse older) (m ∷ []) window
                    ∙ r.split;
                cutoff = r.cutoff;
                fits = r.fits;
                full = r.full;
                kept = r.kept ∙ ground arith;
              })
        ]

  -- Splitting loses and reorders nothing: the messages to compact and then the window are the
  -- candidates. The window is empty only if there are no candidates; it keeps the budget of 1200
  -- tokens, unless it is a single message; and it is as long as it can be: the newest message to
  -- compact would pass the budget.
  pub split_by_budget_lem :
      (candidates : List Message)
      → let (window, to_compact) : List Message × List Message =
          split_by_budget count_tokens candidates in
        (candidates ≡ to_compact ++ window)
        × (nonempty window ≡ nonempty candidates)
        × WithinBudget window
        × Overflows to_compact window
  unfolding split_by_budget
  split_by_budget_lem candidates =
      let r = walk-Walked (reverse candidates) [] 0 (unfold total in refl) tt in
      let window = (walk count_tokens (reverse candidates) [] 0).0 in
      let whole : candidates ≡ r.left ++ window =
        sym (reverse-reverse candidates)
        ∙ sym (append-nil (reverse (reverse candidates)))
        ∙ r.split in
      let front : take (walk count_tokens (reverse candidates) [] 0).1 candidates ≡ r.left =
        ap₂ take r.cutoff whole ∙ take-length-append r.left window in
      (
        rw front whole,
        r.kept ∙ ground (arith, nonempty-reverse candidates),
        r.fits,
        rw front r.full,
      )

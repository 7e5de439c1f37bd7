-- ===== src/Memory/Assemble/Progress.antt =====
-- The summary of a thread over many turns of `MemoryAssembler.assemble`.
use aether_ai_workspace.Base.{
  ℕ, suc, ◌<◌, ◌≡◌, refl, sym, ◌∙◌, ap, ◌⊎◌, inl, inr, true, Option, none, some, List, [], ◌∷◌,
  ◌++◌, Text, Bool-cases, arith, append_assoc, All, All-right,
}
use mathlib.Core.Path.{subst}
use aether_ai_workspace.Domain.Entities.{Message, MemorySummary}
use aether_ai_workspace.Memory.{compaction_fetch_limit}
use aether_ai_workspace.Memory.Window.{split_by_budget_lem}
use aether_ai_workspace.Memory.Assemble.{
  Compaction, recent, is_candidate, candidates, summary_text, last_seq, store, compact, assemble,
}
use aether_ai_workspace.Memory.Assemble.Turns.{last-split, upsert-fields}

-- How many sequence numbers the summary covers.
abbrev pub covered : Option MemorySummary → ℕ
covered none = 0
covered (some row) = suc row.upto_seq

-- The row is the same one, or it covers more.
abbrev pub HasAdvanced : Option MemorySummary → Option MemorySummary → Type 0
HasAdvanced existing row = (row ≡ existing) ⊎ (covered existing < covered row)

HasAdvanced-trans :
    (a b c : Option MemorySummary) → HasAdvanced a b → HasAdvanced b c → HasAdvanced a c
HasAdvanced-trans a b c (inl e) (inl f) = inl (f ∙ e)
HasAdvanced-trans a b c (inl e) (inr f) = inr (subst (λ x. covered x < covered c) e f)
HasAdvanced-trans a b c (inr e) (inl f) = inr (subst (λ x. covered a < covered x) (sym f) e)
HasAdvanced-trans a b c (inr e) (inr f) = inr (omega (arith, e, f))

candidates-All :
    (existing : Option MemorySummary) (ms : List Message)
    → All (λ m. is_candidate existing m ≡ true) (candidates existing ms)
unfolding candidates
candidates-All existing [] = tt
candidates-All existing (m ∷ ms) = elim (Bool-cases (is_candidate existing m)) [
  | inl new ↦ rw new (new, candidates-All existing ms)
  | inr old ↦ rw old (candidates-All existing ms)
]

is_candidate-covered :
    (existing : Option MemorySummary) (m : Message)
    → is_candidate existing m ≡ true
    → covered existing < suc m.seq
unfolding is_candidate
is_candidate-covered none m h = omega arith
is_candidate-covered (some row) m h = ground arith

module _ (count_tokens : Text → ℕ) where
  store-HasAdvanced :
      (c : Compaction) (n : ℕ) (answer : Option Text) (existing : Option MemorySummary)
      → covered existing < suc n
      → HasAdvanced existing (store count_tokens c n answer existing).1
  unfolding store
  store-HasAdvanced c n none existing later = inl refl
  store-HasAdvanced c n (some content) existing later = elim (Bool-cases c.commits) [
    | inl written ↦
        let e = (upsert-fields count_tokens c n content existing).0 in
        rw written (inr (omega (arith, later, e)))
    | inr failed ↦ rw failed (inl refl)
  ]

  compact-HasAdvanced :
      (c : Compaction) (ms to_compact window : List Message) (existing : Option MemorySummary)
      → candidates existing ms ≡ to_compact ++ window
      → HasAdvanced existing (compact count_tokens c to_compact existing).1
  unfolding compact
  compact-HasAdvanced c ms [] window existing e = inl refl
  compact-HasAdvanced c ms (m ∷ rest) window existing e =
      let (before, l, split, is_last) = last-split m rest in
      let whole : candidates existing ms ≡ before ++ (l ∷ window) =
        e ∙ ap (λ t. t ++ window) split ∙ append_assoc before (l ∷ []) window in
      let new : is_candidate existing l ≡ true =
        (All-right _ before (l ∷ window) (
          subst (All (λ m. is_candidate existing m ≡ true)) whole
            (candidates-All existing ms))).0 in
      let later = is_candidate-covered existing l new in
      store-HasAdvanced c (last_seq m rest) (c.summarize (summary_text existing) (m ∷ rest))
        existing (omega (arith, later, is_last))

  assemble-HasAdvanced :
      (c : Compaction) (messages : List Message) (existing : Option MemorySummary)
      → HasAdvanced existing (assemble count_tokens c messages existing).1
  unfolding assemble
  assemble-HasAdvanced c messages existing =
      let fetched = recent compaction_fetch_limit messages in
      let split = split_by_budget_lem count_tokens (candidates existing fetched) in
      compact-HasAdvanced c fetched _ _ existing split.0

  -- The thread's row after turns, each with the messages that it finds and its compaction.
  unfoldable pub assemble_all :
      List (List Message × Compaction) → Option MemorySummary → Option MemorySummary
  unfolding assemble
  assemble_all [] existing = existing
  assemble_all ((messages, c) ∷ turns) existing =
      assemble_all turns (assemble count_tokens c messages existing).1

  -- After any turns, whatever messages they find, whatever their compactors answer or raise, and
  -- whether or not their writes commit: the thread's summary is what it was before them, or it reaches to
  -- a strictly higher number than before, or there is one where none was.
  pub assemble_all-HasAdvanced :
      (turns : List (List Message × Compaction)) (existing : Option MemorySummary)
      → HasAdvanced existing (assemble_all turns existing)
  unfolding assemble_all
  assemble_all-HasAdvanced [] existing = inl refl
  assemble_all-HasAdvanced ((messages, c) ∷ turns) existing =
      let row = (assemble count_tokens c messages existing).1 in
      HasAdvanced-trans existing row (assemble_all turns row)
        (assemble-HasAdvanced c messages existing) (assemble_all-HasAdvanced turns row)

-- ===== src/Memory/Assemble/Turns.antt =====
-- What compaction does to a thread's summary, and that the next turn goes on where it stopped.
use aether_ai_workspace.Base.{
  ℕ, suc, ◌≤◌, ◌≡◌, ◌≢◌, refl, sym, ◌∙◌, ap, inl, inr, true, false, Option, none, some, List, [],
  ◌∷◌, ◌++◌, Text, Bool-cases, take, drop, take-append-drop, arith, append_assoc,
}
use mathlib.Core.List.{reverse, reverse-append, reverse-reverse}
use aether_ai_workspace.Domain.Entities.{Message, MemorySummary}
use aether_ai_workspace.Memory.{compaction_fetch_limit, MemoryContext}
use aether_ai_workspace.Memory.Window.{split_by_budget_lem}
use aether_ai_workspace.Memory.Assemble.{
  Compaction, recent, list_by_thread, is_candidate, candidates, summary_text, last_seq, upsert,
  store, compact, assemble,
}

-- The messages stand in the order of `seq`, from `low` on.
abbrev pub Ascending : ℕ → List Message → Type 0
Ascending low [] = Unit
Ascending low (m ∷ ms) = (low ≤ m.seq) × Ascending (suc m.seq) ms

candidates-low :
    (existing : Option MemorySummary) (low : ℕ) (ms before : List Message) (m : Message)
    (after : List Message)
    → Ascending low ms
    → candidates existing ms ≡ before ++ (m ∷ after)
    → low ≤ m.seq
unfolding candidates
candidates-low existing low [] [] m after h e = absurd (cc)
candidates-low existing low [] (b ∷ before) m after h e = absurd (cc)
candidates-low existing low (x ∷ xs) [] m after h e = elim (Bool-cases (is_candidate existing x)) [
  | inl new ↦
      let eq : x ∷ candidates existing xs ≡ m ∷ after = sym (rw new refl) ∙ e in
      let hd : x ≡ m = cc in rw (sym hd) h.0
  | inr old ↦
      let eq : candidates existing xs ≡ m ∷ after = sym (rw old refl) ∙ e in
      omega (arith, candidates-low existing (suc x.seq) xs [] m after h.1 eq, h.0)
]
candidates-low existing low (x ∷ xs) (b ∷ bs) m after h e =
    elim (Bool-cases (is_candidate existing x)) [
      | inl new ↦
          let eq : x ∷ candidates existing xs ≡ b ∷ bs ++ (m ∷ after) = sym (rw new refl) ∙ e in
          let tl : candidates existing xs ≡ bs ++ (m ∷ after) = cc in
          omega (arith, candidates-low existing (suc x.seq) xs bs m after h.1 tl, h.0)
      | inr old ↦
          let eq : candidates existing xs ≡ b ∷ bs ++ (m ∷ after) = sym (rw old refl) ∙ e in
          omega (arith, candidates-low existing (suc x.seq) xs (b ∷ bs) m after h.1 eq, h.0)
    ]

Ascending-below :
    (low' low : ℕ) (ms : List Message) → low' ≤ low → Ascending low ms → Ascending low' ms
Ascending-below low' low [] le h = tt
Ascending-below low' low (m ∷ ms) le h = (omega (arith, h.0, le), h.1)

Ascending-right :
    (low : ℕ) (before after : List Message) → Ascending low (before ++ after) → Ascending low after
Ascending-right low [] after h = h
Ascending-right low (m ∷ before) after h =
    Ascending-below low (suc m.seq) after (omega (arith, h.0))
      (Ascending-right (suc m.seq) before after h.1)

recent-Ascending :
    (limit low : ℕ) (messages : List Message)
    → Ascending low messages
    → Ascending low (recent limit messages)
unfolding recent list_by_thread
recent-Ascending limit low messages h =
    let whole : reverse (drop limit (reverse messages)) ++ reverse (take limit (reverse messages))
        ≡ messages =
      sym (reverse-append (take limit (reverse messages)) (drop limit (reverse messages)))
      ∙ ap reverse (take-append-drop limit (reverse messages))
      ∙ reverse-reverse messages in
    Ascending-right low (reverse (drop limit (reverse messages)))
      (reverse (take limit (reverse messages))) (rw whole h)

candidates-all :
    (existing : Option MemorySummary) (low : ℕ) (ms : List Message)
    → ((m : Message) → low ≤ m.seq → is_candidate existing m ≡ true)
    → Ascending low ms
    → candidates existing ms ≡ ms
unfolding candidates
candidates-all existing low [] new h = refl
candidates-all existing low (m ∷ ms) new h = rw (new m h.0) (
    ap (λ t. m ∷ t)
      (candidates-all existing (suc m.seq) ms (λ n above. new n (omega (arith, above, h.0))) h.1))

is_candidate-later :
    (existing : Option MemorySummary) (m n : Message)
    → is_candidate existing m ≡ true
    → m.seq ≤ n.seq
    → is_candidate existing n ≡ true
unfolding is_candidate
is_candidate-later none m n new later = refl
is_candidate-later (some row) m n new later = ground arith

-- After a compaction up to the message `m`, the candidates are those that followed it.
candidates-after :
    (existing : Option MemorySummary) (row : MemorySummary) (low : ℕ) (ms before : List Message)
    (m : Message) (after : List Message)
    → Ascending low ms
    → row.upto_seq ≡ m.seq
    → candidates existing ms ≡ before ++ (m ∷ after)
    → candidates (some row) ms ≡ after
unfolding candidates
candidates-after existing row low [] [] m after h s e = absurd (cc)
candidates-after existing row low [] (b ∷ before) m after h s e = absurd (cc)
candidates-after existing row low (x ∷ xs) [] m after h s e =
    elim (Bool-cases (is_candidate existing x)) [
      | inl new ↦
          let eq : x ∷ candidates existing xs ≡ m ∷ after = sym (rw new refl) ∙ e in
          let hd : x ≡ m = cc in
          let tl : candidates existing xs ≡ after = cc in
          let all_left : candidates existing xs ≡ xs =
            candidates-all existing (suc x.seq) xs
              (λ n above. is_candidate-later existing x n new (omega (arith, above))) h.1 in
          let covered : is_candidate (some row) x ≡ false = unfold is_candidate in ground arith in
          let none_left : candidates (some row) xs ≡ xs =
            candidates-all (some row) (suc x.seq) xs
              (λ n above. unfold is_candidate in ground arith) h.1 in
          rw covered (none_left ∙ sym all_left ∙ tl)
      | inr old ↦
          let eq : candidates existing xs ≡ m ∷ after = sym (rw old refl) ∙ e in
          let above = candidates-low existing (suc x.seq) xs [] m after h.1 eq in
          let before_m : is_candidate (some row) x ≡ false = unfold is_candidate in ground arith in
          rw before_m (candidates-after existing row (suc x.seq) xs [] m after h.1 s eq)
    ]
candidates-after existing row low (x ∷ xs) (b ∷ bs) m after h s e =
    elim (Bool-cases (is_candidate existing x)) [
      | inl new ↦
          let eq : x ∷ candidates existing xs ≡ b ∷ bs ++ (m ∷ after) = sym (rw new refl) ∙ e in
          let tl : candidates existing xs ≡ bs ++ (m ∷ after) = cc in
          let above = candidates-low existing (suc x.seq) xs bs m after h.1 tl in
          let before_m : is_candidate (some row) x ≡ false = unfold is_candidate in ground arith in
          rw before_m (candidates-after existing row (suc x.seq) xs bs m after h.1 s tl)
      | inr old ↦
          let eq : candidates existing xs ≡ b ∷ bs ++ (m ∷ after) = sym (rw old refl) ∙ e in
          let above = candidates-low existing (suc x.seq) xs (b ∷ bs) m after h.1 eq in
          let before_m : is_candidate (some row) x ≡ false = unfold is_candidate in ground arith in
          rw before_m (candidates-after existing row (suc x.seq) xs (b ∷ bs) m after h.1 s eq)
    ]

-- The last message of a list that has one.
pub last-split :
    (m : Message) (ms : List Message)
    → (before : List Message) × (l : Message) × (m ∷ ms ≡ before ++ (l ∷ []))
      × (last_seq m ms ≡ l.seq)
unfolding last_seq
last-split m [] = ([], m, refl, refl)
last-split m (n ∷ ms) =
    let (before, l, e, s) = last-split n ms in (m ∷ before, l, ap (λ t. m ∷ t) e, s)

module _ (count_tokens : Text → ℕ) (c : Compaction) where
  pub upsert-fields :
      (n : ℕ) (content : Text) (existing : Option MemorySummary)
      → ((upsert count_tokens c n content existing).upto_seq ≡ n)
        × ((upsert count_tokens c n content existing).content ≡ content)
  unfolding upsert
  upsert-fields n content none = (refl, refl)
  upsert-fields n content (some existing) = (refl, refl)

  compact-resumes :
      (ms to_compact window : List Message) (existing : Option MemorySummary) (low : ℕ)
      → ((text : Option Text) (ms : List Message) → c.summarize text ms ≢ none)
      → c.commits ≡ true
      → Ascending low ms
      → candidates existing ms ≡ to_compact ++ window
      → let (text, row) : Option Text × Option MemorySummary =
          compact count_tokens c to_compact existing in
        (candidates row ms ≡ window) × (summary_text row ≡ text)
  unfolding compact
  compact-resumes ms [] window existing low answers commits h e = (e, refl)
  compact-resumes ms (m ∷ rest) window existing low answers commits h e =
      go (c.summarize (summary_text existing) (m ∷ rest)) refl
    where
      go :
          (r : Option Text)
          → c.summarize (summary_text existing) (m ∷ rest) ≡ r
          → let (text, row) : Option Text × Option MemorySummary =
              store count_tokens c (last_seq m rest) r existing in
            (candidates row ms ≡ window) × (summary_text row ≡ text)
      go none eq = absurd (answers (summary_text existing) (m ∷ rest) eq)
      go (some content) eq =
          let (before, l, split, is_last) = last-split m rest in
          let stored = upsert count_tokens c (last_seq m rest) content existing in
          let fields = upsert-fields (last_seq m rest) content existing in
          let left : candidates existing ms ≡ before ++ (l ∷ window) =
            e ∙ ap (λ t. t ++ window) split ∙ append_assoc before (l ∷ []) window in
          unfold store in
          rw commits (
            candidates-after existing stored low ms before l window h (fields.0 ∙ is_last) left,
            unfold summary_text in ap some fields.1,
          )

  -- For a thread whose messages stand by rising `seq`: when the compactor answers and the write of the
  -- summary commits, the stored summary has the text that the turn used, and of the messages fetched
  -- those that it does not cover are just the turn's window. So no message is dropped between the
  -- summary and the window, and none is summarised twice.
  pub assemble-resumes :
      (messages : List Message) (existing : Option MemorySummary)
      → ((text : Option Text) (ms : List Message) → c.summarize text ms ≢ none)
      → c.commits ≡ true
      → Ascending 0 messages
      → let (context, row) : MemoryContext × Option MemorySummary =
          assemble count_tokens c messages existing in
        (candidates row (recent compaction_fetch_limit messages) ≡ context.window)
        × (summary_text row ≡ context.summary)
  unfolding assemble
  assemble-resumes messages existing answers commits h =
      let fetched = recent compaction_fetch_limit messages in
      let split = split_by_budget_lem count_tokens (candidates existing fetched) in
      compact-resumes fetched _ _ existing 0 answers commits
        (recent-Ascending compaction_fetch_limit 0 messages h) split.0

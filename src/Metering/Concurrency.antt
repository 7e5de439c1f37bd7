-- ===== src/Metering/Concurrency.antt =====
-- Limits are updated on the version that the client has read.
use aether_ai_workspace.Base.{
  ℕ, ◌≡◌, ◌≢◌, refl, sym, ◌∙◌, true, false, none, some, List, [], ◌∷◌, Bool-cases, Option-cases,
  inl, inr, arith, find_row, update_rows, find_row-holds, find_row-All, All,
}
use aether_ai_workspace.Domain.Entities.{Uuid, Instant, Budget}
use aether_ai_workspace.Metering.{
  is_version, with_limit, UpdateBudgetCommand, update_limit, BudgetStore, update_budget,
}

-- No row of the workspace has this version.
abbrev Unversioned : Uuid → Instant → List Budget → Type 0
Unversioned w at = All (λ b. is_version w at b ≡ false)

moved-Unversioned :
    (w : Uuid) (at now limit : ℕ) (rows : List Budget)
    → now ≢ at
    → Unversioned w at (update_rows (is_version w at) (with_limit limit now) rows)
unfolding update_rows
moved-Unversioned w at now limit [] ne = tt
moved-Unversioned w at now limit (b ∷ rows) ne =
    let rest = moved-Unversioned w at now limit rows ne in
    elim (Bool-cases (is_version w at b)) [
      | inl hit ↦ rw hit (ground arith, rest)
      | inr miss ↦ rw miss (miss, rest)
    ]

Unversioned-none :
    (w : Uuid) (at : Instant) (rows : List Budget)
    → Unversioned w at rows
    → find_row (is_version w at) rows ≡ none
Unversioned-none w at rows h = elim (Option-cases (find_row (is_version w at) rows)) [
  | inl e ↦ e
  | inr (b, e) ↦
      let miss = find_row-All (λ b. is_version w at b ≡ false) (is_version w at) rows b e h in
      let hit = find_row-holds (is_version w at) rows b e in
      let clash : true ≡ false = sym hit ∙ miss in absurd (cc clash)
]

update_budget-stale :
    (c : UpdateBudgetCommand) (now : Instant) (event_id : Uuid) (s : BudgetStore)
    → find_row (is_version c.workspace_id c.expected_updated_at) s.accounts.budgets ≡ none
    → update_budget c now event_id s ≡ (none, s)
unfolding update_budget update_limit
update_budget-stale c now event_id s e = rw (update_budget, update_limit, e) refl

-- Of two updates of one workspace's limit that name the same version, only the first can succeed, if
-- the clock has moved on since that version: the second is a conflict, and it leaves the budgets
-- and the audit log as the first one left them.
pub update_budget-conflict :
    (c c' : UpdateBudgetCommand) (now now' : Instant) (event_id event_id' : Uuid) (s : BudgetStore)
    (b : Budget)
    → (update_budget c now event_id s).0 ≡ some b
    → c'.workspace_id ≡ c.workspace_id
    → c'.expected_updated_at ≡ c.expected_updated_at
    → now ≢ c.expected_updated_at
    → update_budget c' now' event_id' (update_budget c now event_id s).1
      ≡ (none, (update_budget c now event_id s).1)
unfolding update_budget update_limit
update_budget-conflict c c' now now' event_id event_id' s b done ew ev ne =
    elim (Option-cases
      (find_row (is_version c.workspace_id c.expected_updated_at) s.accounts.budgets)) [
        | inl e ↦
            let answer : (update_budget c now event_id s).0 ≡ none = rw (update_budget, e) refl in
            let clash : none ≡ some b = sym answer ∙ done in absurd (cc clash)
        | inr (row, e) ↦
            let gone = Unversioned-none c.workspace_id c.expected_updated_at _ (
              moved-Unversioned c.workspace_id c.expected_updated_at now c.monthly_limit_microcents
                s.accounts.budgets ne) in
            let after : (update_budget c now event_id s).1.accounts.budgets
                ≡ update_rows (is_version c.workspace_id c.expected_updated_at)
                    (with_limit c.monthly_limit_microcents now) s.accounts.budgets =
              rw (update_budget, e) refl in
            update_budget-stale c' now' event_id' (update_budget c now event_id s).1
              (rw (ew, ev, after) gone)
      ]

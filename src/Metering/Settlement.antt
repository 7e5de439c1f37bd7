-- ===== src/Metering/Settlement.antt =====
-- The ledger, the budgets and the global counter agree.
use aether_ai_workspace.Base.{
  append-nil, append_assoc, ℕ, ◌+◌, ◌≡◌, refl, sym, ◌∙◌, Bool, true, false, ◌&&◌, Option, none,
  some, List, [], ◌∷◌, ◌++◌, Text, text_eq, ◌==◌, leb, if◌then◌else◌, Bool-cases, inl, inr, arith,
  select_rows, find_row-update_rows, find_row-holds,
}
use aether_ai_workspace.Domain.Entities.{Uuid, Instant, UsageEvent, Budget}
use aether_ai_workspace.Metering.{
  Accounts, is_budget_of, get_budget_row, settle, record_usage, is_version, with_limit,
  UpdateBudgetCommand, update_limit, total_cost, add_to_groups, group_by_model, rollup,
  UsageModelRollup,
}

-- What the events of a workspace cost, and what all of them cost.
unfoldable pub cost_of : Uuid → List UsageEvent → ℕ
cost_of w [] = 0
cost_of w (e ∷ es) =
    let rest = cost_of w es in if e.workspace_id == w then e.cost_microcents + rest else rest

unfoldable pub cost_of_all : List UsageEvent → ℕ
cost_of_all [] = 0
cost_of_all (e ∷ es) = e.cost_microcents + cost_of_all es

-- The writes of the tables.
pub data MeterStep : Type 0 where
  usage : UsageEvent → MeterStep
  set_limit : UpdateBudgetCommand → Instant → MeterStep

unfoldable pub meter_step : MeterStep → Accounts → Accounts
unfolding record_usage update_limit
meter_step (usage e) a = record_usage e a
meter_step (set_limit c now) a = record a { budgets = (update_limit c now a.budgets).1 }

unfoldable pub meter_steps : List MeterStep → Accounts → Accounts
unfolding meter_step
meter_steps [] a = a
meter_steps (s ∷ ss) a = meter_steps ss (meter_step s a)

-- The events that the steps write.
unfoldable pub events_of : List MeterStep → List UsageEvent
events_of [] = []
events_of (usage e ∷ ss) = e ∷ events_of ss
events_of (set_limit c now ∷ ss) = events_of ss

-- Settled so far.
abbrev pub settled : Option Budget → ℕ
settled none = 0
settled (some b) = b.settled_microcents

abbrev has_row : Option Budget → Bool
has_row none = false
has_row (some b) = true

record-settled :
    (w : Uuid) (e : UsageEvent) (a : Accounts) (b : Budget)
    → get_budget_row w a.budgets ≡ some b
    → get_budget_row w (record_usage e a).budgets
      ≡ some (if e.workspace_id == w then settle e.cost_microcents e.occurred_at b else b)
unfolding get_budget_row record_usage
record-settled w e a b found =
    let own = find_row-holds (is_budget_of w) a.budgets b found in
    let same : is_budget_of e.workspace_id b ≡ (e.workspace_id == w) = ground arith in
    find_row-update_rows (is_budget_of w) (is_budget_of e.workspace_id)
      (settle e.cost_microcents e.occurred_at) a.budgets (λ b. refl)
    ∙ rw found (rw same refl)

limit-settled :
    (w : Uuid) (c : UpdateBudgetCommand) (now : Instant) (budgets : List Budget) (b : Budget)
    → get_budget_row w budgets ≡ some b
    → (b' : Budget) × (get_budget_row w (update_limit c now budgets).1 ≡ some b')
      × (b'.settled_microcents ≡ b.settled_microcents)
unfolding get_budget_row update_limit
limit-settled w c now budgets b found =
    let e =
      find_row-update_rows (is_budget_of w) (is_version c.workspace_id c.expected_updated_at)
        (with_limit c.monthly_limit_microcents now) budgets (λ b. refl) in
    elim (Bool-cases (is_version c.workspace_id c.expected_updated_at b)) [
      | inl hit ↦ (with_limit c.monthly_limit_microcents now b, e ∙ rw (found, hit) refl, refl)
      | inr miss ↦ (b, e ∙ rw (found, miss) refl, refl)
    ]

-- Whatever usage is recorded and whatever limits are changed, nothing that was spent is lost or counted
-- twice: the row of a workspace has settled what its recorded events cost, and nothing else, and
-- the global counter what all of them cost.
pub meter_steps_settle :
    (w : Uuid) (steps : List MeterStep) (a : Accounts) (b : Budget)
    → get_budget_row w a.budgets ≡ some b
    → ((b' : Budget) × (get_budget_row w (meter_steps steps a).budgets ≡ some b')
        × (b'.settled_microcents ≡ b.settled_microcents + cost_of w (events_of steps)))
      × ((meter_steps steps a).global_settled_microcents
          ≡ a.global_settled_microcents + cost_of_all (events_of steps))
      × ((meter_steps steps a).usage_events ≡ a.usage_events ++ events_of steps)
unfolding meter_steps meter_step events_of cost_of cost_of_all record_usage
meter_steps_settle w [] a b found =
    ((b, found, omega arith), omega arith, sym (append-nil a.usage_events))
meter_steps_settle w (usage e ∷ steps) a b found =
    let next = record-settled w e a b found in
    let b1 = if e.workspace_id == w then settle e.cost_microcents e.occurred_at b else b in
    let (row, global, events) = meter_steps_settle w steps (record_usage e a) b1 next in
    (
      (row.0, row.1, ground (arith, row.2)),
      omega (arith, global),
      events ∙ append_assoc a.usage_events (e ∷ []) (events_of steps),
    )
meter_steps_settle w (set_limit c now ∷ steps) a b found =
    let (b1, next, same) = limit-settled w c now a.budgets b found in
    let after : Accounts = record a { budgets = (update_limit c now a.budgets).1 } in
    let (row, global, events) = meter_steps_settle w steps after b1 next in
    ((row.0, row.1, omega (arith, row.2, same)), global, events)

total_cost-add :
    (before : Text → Text → Bool) (e : UsageEvent) (rs : List UsageModelRollup)
    → total_cost (add_to_groups before e rs) ≡ e.cost_microcents + total_cost rs
unfolding total_cost add_to_groups
total_cost-add before e [] = refl
total_cost-add before e (r ∷ rs) =
    let ih = total_cost-add before e rs in
    elim (Bool-cases (text_eq r.model e.model)) [
      | inl same ↦ rw same (omega arith)
      | inr other ↦ elim (Bool-cases (before e.model r.model)) [
        | inl here ↦ rw (other, here) (omega arith)
        | inr later ↦ rw (other, later) (omega (arith, ih))
      ]
    ]

total_cost-group :
    (before : Text → Text → Bool) (es : List UsageEvent)
    → total_cost (group_by_model before es) ≡ cost_of_all es
unfolding total_cost group_by_model cost_of_all
total_cost-group before [] = refl
total_cost-group before (e ∷ es) =
    omega (arith, total_cost-add before e (group_by_model before es), total_cost-group before es)

-- A rollup's total is what the workspace's events since the given time cost, however the models are
-- grouped and ordered.
pub rollup-total :
    (before : Text → Text → Bool) (w : Uuid) (since : Instant) (a : Accounts)
    → (rollup before w since a).total_cost_microcents
      ≡ cost_of_all
          (select_rows (λ e. (e.workspace_id == w) && leb since e.occurred_at) a.usage_events)
unfolding rollup
rollup-total before w since a = total_cost-group before _

-- ===== src/Tests/Meters.antt =====
-- Two settlements and two updates of one workspace's budget.
use aether_ai_workspace.Base.{ℕ, ◌+◌, ◌≡◌, refl, ◌≢◌, some, none, [], ◌∷◌, ◌++◌, List, codes, arith}
use aether_ai_workspace.Domain.Entities.{Uuid, UsageEvent, UsageEventKind, Budget}
use aether_ai_workspace.Metering.{
  Accounts, get_budget_row, UpdateBudgetCommand, BudgetStore, update_budget,
}
use aether_ai_workspace.Metering.Settlement.{
  MeterStep, usage, set_limit, meter_steps, events_of, cost_of, cost_of_all, meter_steps_settle,
}
use aether_ai_workspace.Metering.Concurrency.{update_budget-conflict}

abbrev budget : Budget
budget = record {
  workspace_id = 1;
  monthly_limit_microcents = 500;
  soft_pct = 80;
  current_period_start = 0;
  settled_microcents = 7;
  updated_at = 5;
}

abbrev accounts : Accounts
accounts = record { budgets = budget ∷ []; usage_events = []; global_settled_microcents = 7 }

abbrev spent : Uuid → ℕ → UsageEvent
spent w cost = record {
  id = 3;
  workspace_id = w;
  user_id = none;
  kind = UsageEventKind.chat;
  model = codes "m";
  prompt_tokens = 1;
  completion_tokens = 1;
  cost_microcents = cost;
  generation_id = none;
  occurred_at = 9;
}

abbrev raise_limit : ℕ → UpdateBudgetCommand
raise_limit limit = record {
  workspace_id = 1;
  actor_user_id = 4;
  monthly_limit_microcents = limit;
  expected_updated_at = 5;
}

abbrev steps : List MeterStep
steps = set_limit (raise_limit 600) 8 ∷ usage (spent 1 20) ∷ usage (spent 2 30) ∷ []

has_budget : get_budget_row 1 accounts.budgets ≡ some budget
unfolding get_budget_row
has_budget = refl

meter_steps_settle_example :
    ((b' : Budget) × (get_budget_row 1 (meter_steps steps accounts).budgets ≡ some b')
      × (b'.settled_microcents ≡ 7 + cost_of 1 (events_of steps)))
    × ((meter_steps steps accounts).global_settled_microcents ≡ 7 + cost_of_all (events_of steps))
    × ((meter_steps steps accounts).usage_events ≡ [] ++ events_of steps)
meter_steps_settle_example = meter_steps_settle 1 steps accounts budget has_budget

abbrev budget_store : BudgetStore
budget_store = record { accounts = accounts; audit_log = [] }

first_update :
    (update_budget (raise_limit 600) 8 40 budget_store).0
    ≡ some (record budget { monthly_limit_microcents = 600; updated_at = 8 })
unfolding update_budget
first_update = refl

moved_on : ◌≢◌ {A = ℕ} 8 5
moved_on = ground arith

update_budget-conflict_example :
    update_budget (raise_limit 700) 10 41 (update_budget (raise_limit 600) 8 40 budget_store).1
    ≡ (none, (update_budget (raise_limit 600) 8 40 budget_store).1)
update_budget-conflict_example =
    update_budget-conflict (raise_limit 600) (raise_limit 700) 8 10 40 41 budget_store
      (record budget { monthly_limit_microcents = 600; updated_at = 8 }) first_update refl refl
      moved_on

-- ===== src/Metering.antt =====
-- Budgets and the usage ledger, under apps/api/src/aether: app/metering over
-- adapters/postgres/usage_ledger.py and budget_repository.py. Amounts are microcents, which are never
-- negative. Each call is one transaction.
pub mod Settlement
pub mod Concurrency
use aether_ai_workspace.Base.{
  ℕ, ◌+◌, ◌*◌, ◌/◌, Bool, true, false, not, ◌&&◌, Option, none, some, List, [], ◌∷◌, ◌++◌, Text,
  text_eq, ◌==◌, leb, ltb, if◌then◌else◌, find_row, select_rows, update_rows,
}
use aether_ai_workspace.Domain.Entities.{Uuid, Instant, UsageEventKind, UsageEvent, Budget}

-- The tables, and the single row of `global_usage_counter`.
pub record Accounts : Type 0 where
  pub budgets : List Budget
  pub usage_events : List UsageEvent
  pub global_settled_microcents : ℕ

pub record AdmissionDecision : Type 0 where
  pub allowed : Bool
  pub soft_limit_crossed : Bool
  pub settled_microcents : ℕ
  pub monthly_limit_microcents : ℕ

abbrev pub is_budget_of : Uuid → Budget → Bool
is_budget_of w b = b.workspace_id == w

-- `PostgresBudgetRepository.get`
unfoldable pub get_budget_row : Uuid → List Budget → Option Budget
unfolding find_row
get_budget_row w budgets = find_row (is_budget_of w) budgets

-- The decision on the row that was read; a workspace without a row is refused.
unfoldable pub decide : ℕ → Option Budget → AdmissionDecision
decide ceiling_microcents none = record {
  allowed = false;
  soft_limit_crossed = false;
  settled_microcents = 0;
  monthly_limit_microcents = 0;
}
decide ceiling_microcents (some b) =
    let projected = b.settled_microcents + ceiling_microcents in
    record {
      allowed = leb projected b.monthly_limit_microcents;
      soft_limit_crossed = ltb (b.monthly_limit_microcents * b.soft_pct / 100) projected;
      settled_microcents = b.settled_microcents;
      monthly_limit_microcents = b.monthly_limit_microcents;
    }

-- `PostgresBudgetAdmission.check`
unfoldable pub check : Uuid → ℕ → Accounts → AdmissionDecision
unfolding decide get_budget_row
check w ceiling_microcents a = decide ceiling_microcents (get_budget_row w a.budgets)

-- `PostgresBudgetAdmission.check_global`, with the configured budget of all workspaces.
unfoldable pub check_global : ℕ → ℕ → Accounts → Bool
check_global global_monthly_budget_microcents ceiling_microcents a =
    leb (a.global_settled_microcents + ceiling_microcents) global_monthly_budget_microcents

abbrev pub settle : ℕ → Instant → Budget → Budget
settle cost now b = record b { settled_microcents = b.settled_microcents + cost; updated_at = now }

-- `PostgresUsageLedger.record`: the ledger's row and both settlements, in one transaction.
unfoldable pub record_usage : UsageEvent → Accounts → Accounts
unfolding update_rows
record_usage e a = record {
  budgets =
      update_rows (is_budget_of e.workspace_id) (settle e.cost_microcents e.occurred_at) a.budgets;
  usage_events = a.usage_events ++ (e ∷ []);
  global_settled_microcents = a.global_settled_microcents + e.cost_microcents;
}

-- `WHERE workspace_id = $1 AND updated_at = $3`
abbrev pub is_version : Uuid → Instant → Budget → Bool
is_version w expected_updated_at b = is_budget_of w b && (b.updated_at == expected_updated_at)

abbrev pub with_limit : ℕ → Instant → Budget → Budget
with_limit monthly_limit_microcents now b = record b {
  monthly_limit_microcents = monthly_limit_microcents;
  updated_at = now;
}

pub record UpdateBudgetCommand : Type 0 where
  pub workspace_id : Uuid
  pub actor_user_id : Uuid
  pub monthly_limit_microcents : ℕ
  pub expected_updated_at : Instant

-- `PostgresBudgetRepository.update_limit`: the row that it returns, and the table.
unfoldable pub update_limit :
    UpdateBudgetCommand → Instant → List Budget → Option Budget × List Budget
unfolding find_row update_rows
update_limit c now budgets =
    let hit = is_version c.workspace_id c.expected_updated_at in
    let set = with_limit c.monthly_limit_microcents now in
    (
      elim (find_row hit budgets) [ none ↦ none | some b ↦ some (set b) ],
      update_rows hit set budgets,
    )

-- The `budget.updated` event: its id, the workspace, the actor and the limit.
pub record BudgetEvent : Type 0 where
  pub id : Uuid
  pub workspace_id : Uuid
  pub actor_user_id : Uuid
  pub monthly_limit_microcents : ℕ

pub record BudgetStore : Type 0 where
  pub accounts : Accounts
  pub audit_log : List BudgetEvent

-- `UpdateBudget.execute`; `none` is the BudgetConcurrencyConflictError.
unfoldable pub update_budget :
    UpdateBudgetCommand → Instant → Uuid → BudgetStore → Option Budget × BudgetStore
unfolding update_limit
update_budget c now event_id s =
    let (row, budgets) = update_limit c now s.accounts.budgets in
    elim row [
      | none ↦ (none, s)
      | some b ↦ (
        some b,
        record {
          accounts = record s.accounts { budgets = budgets };
          audit_log =
              s.audit_log
              ++ (record {
                id = event_id;
                workspace_id = c.workspace_id;
                actor_user_id = c.actor_user_id;
                monthly_limit_microcents = c.monthly_limit_microcents;
              }
                  ∷ []);
        },
      )
    ]

-- `GetBudget.execute`; `none` is the failed assertion.
unfoldable pub get_budget : Uuid → Accounts → Option Budget
unfolding get_budget_row
get_budget w a = get_budget_row w a.budgets

pub record UsageModelRollup : Type 0 where
  pub model : Text
  pub request_count : ℕ
  pub prompt_tokens : ℕ
  pub completion_tokens : ℕ
  pub cost_microcents : ℕ

pub record UsageRollup : Type 0 where
  pub workspace_id : Uuid
  pub period_start : Instant
  pub by_model : List UsageModelRollup
  pub total_cost_microcents : ℕ

abbrev pub rollup_of : UsageEvent → UsageModelRollup
rollup_of e = record {
  model = e.model;
  request_count = 1;
  prompt_tokens = e.prompt_tokens;
  completion_tokens = e.completion_tokens;
  cost_microcents = e.cost_microcents;
}

abbrev pub merge_usage : UsageEvent → UsageModelRollup → UsageModelRollup
merge_usage e r = record {
  model = r.model;
  request_count = r.request_count + 1;
  prompt_tokens = r.prompt_tokens + e.prompt_tokens;
  completion_tokens = r.completion_tokens + e.completion_tokens;
  cost_microcents = r.cost_microcents + e.cost_microcents;
}

-- `sum(r.cost_microcents for r in by_model)`
unfoldable pub total_cost : List UsageModelRollup → ℕ
total_cost [] = 0
total_cost (r ∷ rs) = r.cost_microcents + total_cost rs

-- The database's order of texts.
module _ (collates_before : Text → Text → Bool) where
  -- `GROUP BY model ORDER BY model`, one more event at a time.
  unfoldable pub add_to_groups : UsageEvent → List UsageModelRollup → List UsageModelRollup
  unfolding text_eq
  add_to_groups e [] = rollup_of e ∷ []
  add_to_groups e (r ∷ rs) =
      let rest = add_to_groups e rs in
      if text_eq r.model e.model
      then merge_usage e r ∷ rs
      else if collates_before e.model r.model
      then rollup_of e ∷ r ∷ rs
      else r ∷ rest

  unfoldable pub group_by_model : List UsageEvent → List UsageModelRollup
  unfolding add_to_groups
  group_by_model [] = []
  group_by_model (e ∷ es) = add_to_groups e (group_by_model es)

  -- `PostgresUsageLedger.rollup`
  unfoldable pub rollup : Uuid → Instant → Accounts → UsageRollup
  unfolding group_by_model total_cost select_rows
  rollup w since a =
      let by_model =
        group_by_model
          (select_rows (λ e. (e.workspace_id == w) && leb since e.occurred_at) a.usage_events) in
      record {
        workspace_id = w;
        period_start = since;
        by_model = by_model;
        total_cost_microcents = total_cost by_model;
      }

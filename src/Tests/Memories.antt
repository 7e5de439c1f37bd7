-- ===== src/Tests/Memories.antt =====
-- Runs of the memory service, with a tokenizer that counts characters.
use aether_ai_workspace.Base.{
  ℕ, ◌≡◌, refl, true, false, none, some, Option, List, [], ◌∷◌, ◌++◌, Text, codes, arith,
}
use aether_ai_workspace.Domain.Entities.{Message, user, complete, MemorySummary}
use aether_ai_workspace.Memory.{compaction_fetch_limit, nonempty, split_by_budget, MemoryContext}
use aether_ai_workspace.Memory.Window.{WithinBudget, Overflows, split_by_budget_lem}
use aether_ai_workspace.Memory.Assemble.{Compaction, assemble, candidates, recent, summary_text}
use aether_ai_workspace.Memory.Assemble.Progress.{
  HasAdvanced, covered, assemble_all, assemble_all-HasAdvanced,
}
use aether_ai_workspace.Memory.Assemble.Turns.{assemble-resumes}

-- Six hundred tokens a message.
abbrev count_tokens : Text → ℕ
count_tokens text = 600

abbrev message : ℕ → Message
message n = record {
  id = n;
  workspace_id = 1;
  thread_id = 2;
  seq = n;
  role = user;
  content = codes "hello";
  status = complete;
  client_message_id = none;
  model = none;
  prompt_tokens = none;
  completion_tokens = none;
  cost_microcents = none;
  grounded = false;
  created_at = n;
}

abbrev three : List Message
three = message 1 ∷ message 2 ∷ message 3 ∷ []

abbrev answering : Compaction
answering = record {
  summarize = λ previous ms. some (codes "summary");
  commits = true;
  compactor_model_label = codes "label";
  new_id = 9;
  workspace_id = 1;
  thread_id = 2;
  now = 10;
}

split_by_budget_example :
    let (window, to_compact) : List Message × List Message = split_by_budget count_tokens three in
    (three ≡ to_compact ++ window)
    × (nonempty window ≡ true)
    × WithinBudget count_tokens window
    × Overflows count_tokens to_compact window
split_by_budget_example = split_by_budget_lem count_tokens three

assemble-resumes_example :
    let (context, row) : MemoryContext × Option MemorySummary =
      assemble count_tokens answering three none in
    (candidates row (recent compaction_fetch_limit three) ≡ context.window)
    × (summary_text row ≡ context.summary)
assemble-resumes_example =
    assemble-resumes count_tokens answering three none (λ text ms e. absurd (cc e)) refl
      (omega arith, (omega arith, (omega arith, tt)))

abbrev failing : Compaction
failing = record answering { commits = false }

-- A turn whose write fails, and one that succeeds.
assemble_all-HasAdvanced_example :
    HasAdvanced none (assemble_all count_tokens ((three, failing) ∷ (three, answering) ∷ []) none)
assemble_all-HasAdvanced_example =
    assemble_all-HasAdvanced count_tokens ((three, failing) ∷ (three, answering) ∷ []) none

-- The second turn has compacted the first two messages.
is_advanced :
    covered (assemble_all count_tokens ((three, failing) ∷ (three, answering) ∷ []) none) ≡ 2
unfolding assemble_all
is_advanced = refl

-- ===== src/Memory/Assemble.antt =====
-- `MemoryAssembler.assemble` of apps/api/src/aether/app/chat/memory_assembly.py, with the two reads
-- and the write it makes in the database (adapters/postgres/message_repository.py,
-- message_store.py and memory_summary_store.py, of one thread of one workspace). A thread's
-- messages are listed by rising `seq`. The compactor is a parameter, as is whether the write of the
-- summary commits; an exception of the reads ends the turn before any of this and is not modelled.
pub mod Turns
pub mod Progress
use aether_ai_workspace.Base.{
  ℕ, zero, suc, Bool, true, false, Option, none, some, List, [], ◌∷◌, Text, ltb, take,
  if◌then◌else◌,
}
use mathlib.Core.List.{reverse}
use aether_ai_workspace.Domain.Entities.{Uuid, Message, MemorySummary, Instant}
use aether_ai_workspace.Memory.{compaction_fetch_limit, MemoryContext, split_by_budget}

-- What a turn's compaction is given: the ports, the clock and the new row's names.
pub record Compaction : Type 0 where
  -- None: the compactor raised.
  pub summarize : Option Text → List Message → Option Text
  -- False: the write of the summary raised.
  pub commits : Bool
  pub compactor_model_label : Text
  pub new_id : Uuid
  pub workspace_id : Uuid
  pub thread_id : Uuid
  pub now : Instant

-- `ORDER BY seq DESC LIMIT`.
unfoldable pub list_by_thread : ℕ → List Message → List Message
list_by_thread limit messages = take limit (reverse messages)

unfoldable pub recent : ℕ → List Message → List Message
unfolding list_by_thread
recent limit messages = reverse (list_by_thread limit messages)

unfoldable pub is_candidate : Option MemorySummary → Message → Bool
is_candidate none m = true
is_candidate (some existing) m = ltb existing.upto_seq m.seq

unfoldable pub candidates : Option MemorySummary → List Message → List Message
unfolding is_candidate
candidates existing [] = []
candidates existing (m ∷ ms) =
    let rest = candidates existing ms in if is_candidate existing m then m ∷ rest else rest

unfoldable pub summary_text : Option MemorySummary → Option Text
summary_text none = none
summary_text (some existing) = some existing.content

-- `to_compact[-1].seq`, of a list given by its head and tail.
unfoldable pub last_seq : Message → List Message → ℕ
last_seq m [] = m.seq
last_seq m (n ∷ ms) = last_seq n ms

module _ (count_tokens : Text → ℕ) (c : Compaction) where
  -- `INSERT ... ON CONFLICT (thread_id) DO UPDATE`.
  unfoldable pub upsert : ℕ → Text → Option MemorySummary → MemorySummary
  upsert upto_seq content none = record {
    id = c.new_id;
    workspace_id = c.workspace_id;
    thread_id = c.thread_id;
    upto_seq = upto_seq;
    content = content;
    model = c.compactor_model_label;
    token_count = count_tokens content;
    created_at = c.now;
    updated_at = c.now;
  }
  upsert upto_seq content (some existing) = record {
    id = existing.id;
    workspace_id = existing.workspace_id;
    thread_id = existing.thread_id;
    upto_seq = upto_seq;
    content = content;
    model = c.compactor_model_label;
    token_count = count_tokens content;
    created_at = existing.created_at;
    updated_at = c.now;
  }

  -- The body of the `try`, on the compactor's answer: the text the turn uses and the stored row.
  unfoldable pub store : ℕ → Option Text → Option MemorySummary → Option Text × Option MemorySummary
  unfolding upsert summary_text
  store upto_seq none existing = (summary_text existing, existing)
  store upto_seq (some content) existing =
      (some content, if c.commits then some (upsert upto_seq content existing) else existing)

  unfoldable pub compact : List Message → Option MemorySummary → Option Text × Option MemorySummary
  unfolding store summary_text last_seq
  compact [] existing = (summary_text existing, existing)
  compact (m ∷ ms) existing =
      store (last_seq m ms) (c.summarize (summary_text existing) (m ∷ ms)) existing

  -- The context of the turn, and the thread's summary row after it.
  unfoldable pub assemble :
      List Message → Option MemorySummary → MemoryContext × Option MemorySummary
  unfolding recent candidates split_by_budget compact
  assemble messages existing =
      let (window, to_compact) =
        split_by_budget count_tokens
          (candidates existing (recent compaction_fetch_limit messages)) in
      let (text, row) = compact to_compact existing in
      ((record { summary = text; window = window }), row)

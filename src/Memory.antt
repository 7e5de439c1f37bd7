-- ===== src/Memory.antt =====
-- The memory service, apps/api/src/aether/app/chat/memory_assembly.py: the window of recent messages
-- and the rolling summary of what falls out of it. The tokenizer is a library: its count of a
-- text's tokens is the parameter `count_tokens`. The model behind the compactor port is a
-- parameter too; what its adapter does besides is not modelled.
pub mod Window
pub mod Assemble
use aether_ai_workspace.Base.{
  ℕ, zero, suc, ◌+◌, Bool, true, false, not, ◌&&◌, Option, none, some, List, [], ◌∷◌, Text, ltb,
  length, take, if◌then◌else◌,
}
use mathlib.Core.List.{reverse}
use aether_ai_workspace.Domain.Entities.{Uuid, Message, MemorySummary, Instant}

abbrev pub window_token_budget : ℕ
window_token_budget = 1200

abbrev pub compaction_fetch_limit : ℕ
compaction_fetch_limit = 200

pub record MemoryContext : Type 0 where
  pub summary : Option Text
  pub window : List Message

abbrev pub nonempty : List Message → Bool
nonempty [] = false
nonempty (m ∷ ms) = true

module _ (count_tokens : Text → ℕ) where
  -- The loop over the reversed candidates; `cutoff` is the number of those left.
  unfoldable pub walk : List Message → List Message → ℕ → List Message × ℕ
  walk [] window token_total = (window, 0)
  walk (m ∷ older) window token_total =
      let t = count_tokens m.content in
      let rest = walk older (m ∷ window) (token_total + t) in
      if nonempty window && ltb window_token_budget (token_total + t)
      then (window, suc (length older))
      else rest

  -- `_split_by_budget`: the window, and what needs compacting.
  unfoldable pub split_by_budget : List Message → List Message × List Message
  unfolding walk
  split_by_budget candidates =
      let (window, cutoff) = walk (reverse candidates) [] 0 in (window, take cutoff candidates)

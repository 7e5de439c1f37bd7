-- ===== src/Turn/Ports.antt =====
-- What `SendMessage` is given, and `buffer_and_yield`
-- (apps/api/src/aether/app/chat/send_message.py).
use aether_ai_workspace.Base.{
  ℕ, suc, ◌+◌, ◌*◌, ◌/◌, Bool, false, not, ◌&&◌, Option, List, [], ◌∷◌, ◌++◌, Text, codes,
  if◌then◌else◌,
}
use aether_ai_workspace.Domain.Entities.{Uuid, Instant, Message, Citation}
use aether_ai_workspace.Chunking.Sentences.{is_space}
use aether_ai_workspace.Memory.Assemble.{Compaction}
use aether_ai_workspace.Retrieval.Floats.{Floats}
use aether_ai_workspace.Retrieval.Search.{SearchPorts}
use aether_ai_workspace.Router.Envelope.{RetrievedContext}
use aether_ai_workspace.Router.Relay.{GeneratorChunk, Exn}
use aether_ai_workspace.Streaming.{StreamEvent, BufferedEvent, to_buffered}
use aether_ai_workspace.Turn.Store.{ThreadStore}

-- `NOT_IN_KNOWLEDGE_BASE_REPLY` of ports/chat.py
abbrev pub not_in_knowledge_base_reply : Text
not_in_knowledge_base_reply = codes "I don't have information about that in the knowledge base."

pub record SendMessageCommand : Type 0 where
  pub workspace_id : Uuid
  pub thread_id : Uuid
  pub content : Text
  pub client_message_id : Text

-- What a generator yields until it ends, and what it raises then, if anything.
pub record GeneratorRun : Type 0 where
  pub chunks : List GeneratorChunk
  pub raised : Option Exn

-- `GeneratorPort` of ports/chat.py
pub record Generator : Type 0 where
  pub primary_model : Text
  pub generate : List Message → Text → RetrievedContext → Option Text → GeneratorRun

-- The ids that one turn draws, and the clock at its writes.
pub record TurnNames : Type 0 where
  pub generation_id : Uuid
  pub user_message_id : Uuid
  pub reply_id : Uuid
  pub usage_event_id : Uuid
  pub new_citation_id : ℕ → Uuid
  pub user_time : Instant
  pub reply_time : Instant
  pub usage_time : Instant

pub record SendMessage (fl : Floats) : Type 0 where
  pub generator : Generator
  pub search_ports : SearchPorts fl
  pub rewrite : List Message → Text → Option Text
  pub threshold : fl.Float
  pub count_tokens : Text → ℕ
  pub compaction : Compaction
  -- The answer of the n-th `is_cancelled()`.
  pub is_cancelled : ℕ → Bool
  -- `str(exc)`
  pub exn_text : Exn → Text
  pub in_some_order : List Citation → List Citation
  pub max_tokens : ℕ
  pub ceiling_cost_per_1k_microcents : ℕ
  pub global_monthly_budget_microcents : ℕ

-- What a turn has done so far: the rows, the generation's buffer, the events that were yielded, and
-- the variable `seq`.
pub record Turn : Type 0 where
  pub store : ThreadStore
  pub buffer : List BufferedEvent
  pub yielded : List StreamEvent
  pub seq : ℕ

-- `yield await buffer_and_yield(...)` of an event with the current `seq`, and `seq += 1`.
unfoldable pub emit : (ℕ → StreamEvent) → Turn → Turn
unfolding to_buffered
emit event t = record {
  store = t.store;
  buffer = t.buffer ++ (to_buffered (event t.seq) ∷ []);
  yielded = t.yielded ++ (event t.seq ∷ []);
  seq = suc t.seq;
}

-- `len(content.split())`; the flag says that the character in front belongs to a word.
unfoldable pub word_count : Bool → Text → ℕ
unfolding is_space
word_count in_word [] = 0
word_count in_word (c ∷ text) =
    let rest = word_count (not (is_space c)) text in
    if not in_word && not (is_space c) then suc rest else rest

-- `_ceiling_microcents`
unfoldable pub ceiling_microcents : ℕ → ℕ → Text → ℕ
unfolding word_count
ceiling_microcents max_tokens ceiling_cost_per_1k_microcents content =
    (word_count false content + max_tokens) * ceiling_cost_per_1k_microcents / 1000

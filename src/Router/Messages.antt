-- ===== src/Router/Messages.antt =====
-- The messages that the router sends, and the price of a completion: ports/llm.py, `_build_messages`
-- and `_cost_microcents` of app/llm/router.py (under apps/api/src/aether).
use aether_ai_workspace.Base.{
  ℕ, ◌+◌, ◌*◌, ◌/◌, Bool, Option, none, some, List, [], ◌∷◌, ◌++◌, map, Text,
}
use aether_ai_workspace.Domain.Entities.{Message, MessageRole}
use aether_ai_workspace.Router.Prompts.{system_prompt, grounded_system_prompt}
use aether_ai_workspace.Router.Envelope.{
  RetrievedContext, join_blank, render_memory_envelope, render_context_envelope,
}

pub data LlmMessageRole : Type 0 where
  system user assistant : LlmMessageRole

pub record LlmMessage : Type 0 where
  pub role : LlmMessageRole
  pub content : Text

pub record CompletionRequest : Type 0 where
  pub messages : List LlmMessage
  pub model : Text
  pub max_tokens : ℕ

pub record ProviderCapability : Type 0 where
  pub provider : Text
  pub model : Text
  pub max_context_tokens : ℕ
  pub supports_tools : Bool
  pub supports_vision : Bool
  pub cost_per_1k_prompt_microcents : ℕ
  pub cost_per_1k_completion_microcents : ℕ

-- `_HISTORY_ROLE_MAP`
unfoldable pub history_role : MessageRole → LlmMessageRole
history_role MessageRole.user = LlmMessageRole.user
history_role MessageRole.assistant = LlmMessageRole.assistant
history_role MessageRole.system = LlmMessageRole.system

unfoldable pub history_message : Message → LlmMessage
unfolding history_role
history_message m = record { role = history_role m.role; content = m.content }

-- The system prompt that a turn with this context has.
unfoldable pub active_system_prompt : Option RetrievedContext → Text
active_system_prompt none = system_prompt
active_system_prompt (some context) = grounded_system_prompt

-- `if memory_summary:` is false for `None` and for the empty text.
unfoldable pub memory_part : Option Text → List Text
memory_part none = []
memory_part (some []) = []
memory_part (some (c ∷ cs)) = render_memory_envelope (c ∷ cs) ∷ []

unfoldable pub context_part : Option RetrievedContext → List Text
context_part none = []
context_part (some context) = render_context_envelope context ∷ []

unfoldable pub final_user_content : Text → Option RetrievedContext → Option Text → Text
unfolding join_blank memory_part context_part
final_user_content user_content context memory_summary =
    join_blank (memory_part memory_summary ++ (context_part context ++ (user_content ∷ [])))

unfoldable pub build_messages :
    List Message → Text → Option RetrievedContext → Option Text → List LlmMessage
unfolding active_system_prompt history_message final_user_content
build_messages thread_history user_content context memory_summary =
    record { role = LlmMessageRole.system; content = active_system_prompt context }
    ∷ (map history_message thread_history
        ++ (record {
          role = LlmMessageRole.user;
          content = final_user_content user_content context memory_summary;
        }
            ∷ []))

unfoldable pub cost_microcents : ProviderCapability → ℕ → ℕ → ℕ
cost_microcents capability prompt_tokens completion_tokens =
    prompt_tokens * capability.cost_per_1k_prompt_microcents / 1000
    + completion_tokens * capability.cost_per_1k_completion_microcents / 1000

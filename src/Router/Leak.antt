-- ===== src/Router/Leak.antt =====
-- `_reply_leaks_system_prompt` of apps/api/src/aether/app/llm/router.py: does the end of a reply hold
-- a long part of the system prompt?
pub mod Exact
use aether_ai_workspace.Base.{
  ℕ, ◌+◌, ◌-◌, Bool, false, ◌&&◌, ◌||◌, List, [], ◌∷◌, Text, is_in, leb, ltb, if◌then◌else◌, length,
  take, drop,
}

abbrev pub leak_threshold_chars : ℕ
leak_threshold_chars = 50

-- `text[-n:]` for a positive `n`
abbrev pub last : ℕ → Text → Text
last n text = drop (length text - n) text

-- `any(prompt[i : i + k] in window for i in range(len(prompt) - k + 1))`
unfoldable pub any_span_in : ℕ → Text → Text → Bool
any_span_in k window [] = false
any_span_in k window (c ∷ prompt) =
    leb k (length (c ∷ prompt)) && is_in (take k (c ∷ prompt)) window || any_span_in k window prompt

unfoldable pub reply_leaks_system_prompt : Text → Text → Bool
unfolding any_span_in
reply_leaks_system_prompt accumulated_reply system_prompt =
    if ltb (length accumulated_reply) leak_threshold_chars
    then false
    else any_span_in leak_threshold_chars (last (leak_threshold_chars + 20) accumulated_reply)
        system_prompt

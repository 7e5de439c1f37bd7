-- ===== src/Tests/Turns.antt =====
-- A grounded turn with two tokens and a cost, over numbers in place of floats.
use aether_ai_workspace.Base.{
  arith, ℕ, ◌+◌, ◌-◌, ◌*◌, ◌/◌, ◌≡◌, ◌≢◌, refl, sym, ◌∙◌, true, false, none, some, List, [], ◌∷◌,
  codes, ltb, ◌==◌, length, take, drop, All,
}
use aether_ai_workspace.Memory.Assemble.{Compaction}
use aether_ai_workspace.Retrieval.Floats.{Floats}
use aether_ai_workspace.Retrieval.Fusion.{ChunkSearchResult}
use aether_ai_workspace.Retrieval.Search.{SearchPorts, RetrievalResult, search}
use aether_ai_workspace.Retrieval.Rounds.{HasDimension}
use aether_ai_workspace.Retrieval.Answers.{IsSelection, search-IsSelection}
use aether_ai_workspace.Router.Relay.{text, generation_usage}
use aether_ai_workspace.Streaming.{BufferedEvent}
use aether_ai_workspace.Turn.Store.{ThreadStore, find_by_client_message_id}
use aether_ai_workspace.Turn.Ports.{SendMessageCommand, TurnNames, SendMessage}
use aether_ai_workspace.Turn.Execute.{TurnEnd, execute, run_turn}
use aether_ai_workspace.Turn.Text.{streamed_text}
use aether_ai_workspace.Turn.Protocol.{Follows, execute-Follows}
use aether_ai_workspace.Turn.Retry.{IsNumbered, Repeats, execute-IsNumbered, execute-Repeats}
use aether_ai_workspace.Turn.Settled.{Settles, run_turn-Settles}
use aether_ai_workspace.Sse.{follow_buffer}
use aether_ai_workspace.Sse.Resume.{Delivers}
use aether_ai_workspace.Sse.Delivery.{execute-Delivers}

abbrev pub naturals : Floats
naturals = record {
  Float = ℕ;
  zero_float = 0;
  one_float = 1;
  half = 0;
  negative_infinity = 0;
  of_int = λ n. n;
  plus = λ a b. a + b;
  minus = λ a b. a - b;
  times = λ a b. a * b;
  over = λ a b. a / b;
  sqrt = λ a. a;
  less = λ a b. ltb a b;
  same = λ a b. a == b;
}

abbrev hit : ChunkSearchResult naturals
hit = record {
  chunk_id = 70;
  document_id = 71;
  document_title = codes "Guide";
  section_path = codes "Intro";
  page_start = some 1;
  page_end = none;
  content = codes "facts";
  embedding = none;
  score = 1;
}

abbrev ranked_second : ChunkSearchResult naturals
ranked_second = record hit { chunk_id = 72; embedding = some (1 ∷ 2 ∷ []) }

-- Both legs find both chunks.
abbrev legs : SearchPorts naturals
legs = record {
  embed = λ q. 1 ∷ 1 ∷ [];
  search_vector = λ w e n. some (hit ∷ ranked_second ∷ []);
  search_lexical = λ w q n. ranked_second ∷ hit ∷ [];
}

abbrev InPlane : ChunkSearchResult naturals → Type 0
InPlane r = HasDimension naturals 2 r.embedding

legs_InPlane :
    (rs : List (ChunkSearchResult naturals))
    → some (hit ∷ ranked_second ∷ []) ≡ some rs
    → All InPlane rs
legs_InPlane rs e =
    let same : hit ∷ ranked_second ∷ [] ≡ rs = cc in
    let all : All InPlane (hit ∷ ranked_second ∷ []) = (tt, (refl, tt)) in rw⁻¹ same all

search-IsSelection_example :
    (result : RetrievalResult naturals) × (search naturals legs 1 (codes "q") none 1 ≡ some result)
    × IsSelection naturals InPlane 1 result.chunks
    × (result.degraded ≡ false)
search-IsSelection_example =
    search-IsSelection naturals 2 InPlane (λ r q. q) legs 1 (codes "q") none 1 legs_InPlane
      (λ q n. (refl, (tt, tt)))

abbrev compaction : Compaction
compaction = record {
  summarize = λ text messages. none;
  commits = true;
  compactor_model_label = codes "compactor";
  new_id = 90;
  workspace_id = 0;
  thread_id = 0;
  now = 0;
}

abbrev pub ports : SendMessage naturals
ports = record {
  generator = record {
    primary_model = codes "m";
    generate = λ history content context summary. record {
      chunks =
          text (codes "Hel")
          ∷ text (codes "lo")
          ∷ generation_usage (record {
            prompt_tokens = 4;
            completion_tokens = 2;
            cost_microcents = 9;
            model = codes "m2";
          })
          ∷ [];
      raised = none;
    };
  };
  search_ports = record {
    embed = λ q. [];
    search_vector = λ w e n. none;
    search_lexical = λ w q n. hit ∷ [];
  };
  rewrite = λ history q. none;
  threshold = 0;
  count_tokens = λ t. length t;
  compaction = compaction;
  is_cancelled = λ n. false;
  exn_text = λ e. [];
  in_some_order = λ cs. cs;
  max_tokens = 10;
  ceiling_cost_per_1k_microcents = 1000;
  global_monthly_budget_microcents = 1000;
}

abbrev pub question : SendMessageCommand
question = record {
  workspace_id = 1;
  thread_id = 2;
  content = codes "What now";
  client_message_id = codes "c1";
}

abbrev pub turn_names : ℕ → TurnNames
turn_names n = record {
  generation_id = n;
  user_message_id = n + 1;
  reply_id = n + 2;
  usage_event_id = n + 3;
  new_citation_id = λ i. n + 4 + i;
  user_time = n;
  reply_time = n + 1;
  usage_time = n + 2;
}

abbrev pub empty_thread : ThreadStore
empty_thread = record {
  messages = [];
  next_seq = none;
  citations = [];
  summary = none;
  accounts = record {
    budgets =
        record {
          workspace_id = 1;
          monthly_limit_microcents = 500;
          soft_pct = 80;
          current_period_start = 0;
          settled_microcents = 0;
          updated_at = 0;
        }
        ∷ [];
    usage_events = [];
    global_settled_microcents = 0;
  };
}

says_hello :
    streamed_text (execute naturals ports question (turn_names 100) empty_thread).turn.yielded
    ≡ codes "Hello"
unfolding execute streamed_text
says_hello = refl

execute-Follows_example :
    Follows 100 (execute naturals ports question (turn_names 100) empty_thread)
execute-Follows_example = execute-Follows naturals ports question (turn_names 100) empty_thread

empty_thread-IsNumbered : IsNumbered empty_thread
empty_thread-IsNumbered = omega arith

is_fresh : find_by_client_message_id (codes "c1") empty_thread ≡ none
unfolding find_by_client_message_id
is_fresh = refl

speaks :
    streamed_text (execute naturals ports question (turn_names 100) empty_thread).turn.yielded ≢ []
speaks silent = let clash : codes "Hello" ≡ [] = sym says_hello ∙ silent in cc clash

execute-Repeats_example :
    Repeats (execute naturals ports question (turn_names 100) empty_thread).turn (
      execute naturals ports question
        (turn_names 200)
        (execute naturals ports question (turn_names 100) empty_thread).turn.store)
execute-Repeats_example =
    execute-Repeats naturals ports ports question (turn_names 100) (turn_names 200) empty_thread
      empty_thread-IsNumbered is_fresh speaks

execute-IsNumbered_example :
    IsNumbered (execute naturals ports question (turn_names 100) empty_thread).turn.store
execute-IsNumbered_example =
    execute-IsNumbered naturals ports question (turn_names 100) empty_thread empty_thread-IsNumbered

run_turn-Settles_example :
    Settles question
      (turn_names 100)
      empty_thread
      (run_turn naturals ports question (turn_names 100) empty_thread).turn
run_turn-Settles_example = run_turn-Settles naturals ports question (turn_names 100) empty_thread

-- One event more in the buffer at each poll; the client has seen the first one.
abbrev growing : ℕ → List BufferedEvent
growing i = take i (execute naturals ports question (turn_names 100) empty_thread).turn.buffer

returns : (execute naturals ports question (turn_names 100) empty_thread).ended ≡ TurnEnd.returned
unfolding execute
returns = refl

six_events : length (execute naturals ports question (turn_names 100) empty_thread).turn.buffer ≡ 6
unfolding execute
six_events = refl

execute-Delivers_example :
    Delivers 100
      (drop 1 (execute naturals ports question (turn_names 100) empty_thread).turn.buffer)
      (follow_buffer naturals 15 1 growing 100 7 0 1 0)
execute-Delivers_example =
    execute-Delivers naturals ports question (turn_names 100) empty_thread 15 1 growing (λ i. i) 1 6
      returns (λ i. refl) (omega (arith, six_events)) (omega (arith, six_events))

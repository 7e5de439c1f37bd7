-- ===== src/Tests/Composed.antt =====
-- A turn over two providers of which the first is down.
use aether_ai_workspace.Base.{◌≡◌, refl, none, [], ◌∷◌, List, codes, Text}
use aether_ai_workspace.Memory.{MemoryContext}
use aether_ai_workspace.Retrieval.Selection.{RankedChunk}
use aether_ai_workspace.Router.Relay.Filter.{texts}
use aether_ai_workspace.Turn.Execute.{start_turn, generate_reply}
use aether_ai_workspace.Turn.Text.{streamed_text}
use aether_ai_workspace.Turn.Routed.{
  joined, routed, until_cancelled, SaysOne, generated, generate_reply-OneVoice,
}
use aether_ai_workspace.Tests.Routing.{router, clock, breakers}
use aether_ai_workspace.Tests.Turns.{naturals, ports, question, turn_names, empty_thread}

abbrev retrieved : List (RankedChunk naturals)
retrieved =
    record {
      chunk_id = 70;
      document_id = 71;
      document_title = codes "Guide";
      section_path = codes "Intro";
      page_start = none;
      page_end = none;
      content = codes "facts";
      fused_score = 1;
    }
    ∷ []

abbrev nothing_yet : MemoryContext
nothing_yet = record { summary = none; window = [] }

is_silent : streamed_text (start_turn empty_thread).yielded ≡ []
unfolding streamed_text start_turn
is_silent = refl

-- The text that the turn streams.
abbrev streamed : Text
streamed =
    streamed_text
      (generate_reply naturals
        (routed naturals ports router (codes "m") clock breakers question (turn_names 1) retrieved
          nothing_yet)
        question (turn_names 1) retrieved nothing_yet (start_turn empty_thread)).yielded

generate_reply-OneVoice_example :
    (streamed
      ≡ joined (
          texts (
            until_cancelled ports.is_cancelled 0
              (generated naturals ports router
                (codes "m")
                clock
                breakers
                question
                (turn_names 1)
                retrieved
                nothing_yet).yielded)))
    × SaysOne naturals ports router
        (codes "m")
        clock
        breakers
        question
        (turn_names 1)
        retrieved
        nothing_yet
        streamed
generate_reply-OneVoice_example =
    generate_reply-OneVoice naturals ports router (codes "m") clock breakers question (turn_names 1)
      retrieved nothing_yet (start_turn empty_thread) is_silent

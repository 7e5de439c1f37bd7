-- ===== src/Sse/Delivery.antt =====
-- From `SendMessage.execute` (apps/api/src/aether/app/chat/send_message.py) through the stream buffer
-- (adapters/redis/stream_buffer.py) to the response (http/sse.py).
use aether_ai_workspace.Base.{
  arith, ℕ, suc, ◌≤◌, ◌<◌, ◌≡◌, refl, ap, inl, inr, false, List, [], ◌∷◌, ◌++◌, length, take, drop,
  All, ltb,
}
use aether_ai_workspace.Domain.Entities.{Uuid}
use aether_ai_workspace.Retrieval.Floats.{Floats}
use aether_ai_workspace.Streaming.{BufferedEvent}
use aether_ai_workspace.Streaming.Grammar.{StreamPhase}
use aether_ai_workspace.Turn.Store.{ThreadStore}
use aether_ai_workspace.Turn.Ports.{SendMessageCommand, TurnNames, SendMessage, Turn}
use aether_ai_workspace.Turn.Execute.{TurnEnd, execute}
use aether_ai_workspace.Turn.Reader.{At}
use aether_ai_workspace.Turn.Protocol.{execute-Follows}
use aether_ai_workspace.Sse.{append, follow_buffer}
use aether_ai_workspace.Sse.Complete.{IsComplete, Reads-IsComplete}
use aether_ai_workspace.Sse.Resume.{Delivers, follow-Delivers}

-- An event whose number is the highest goes to the end of the set, as a turn's buffer has it.
pub append-highest :
    (e : BufferedEvent) (buffer : List BufferedEvent)
    → All (λ x. x.seq < e.seq) buffer
    → append e buffer ≡ buffer ++ (e ∷ [])
unfolding append
append-highest e [] h = refl
append-highest e (x ∷ buffer) h =
    let behind : ltb e.seq x.seq ≡ false = let lt = h.0 in ground arith in
    rw behind (ap (λ l. x ∷ l) (append-highest e buffer h.1))

-- What a turn leaves in the buffer is complete.
closed-IsComplete : (g : Uuid) (t : Turn) → At g StreamPhase.closed t → IsComplete 0 t.buffer
closed-IsComplete g t h =
    rw h.buffered (Reads-IsComplete g 0 t.seq StreamPhase.opening t.yielded refl h.reads)

-- Of an execution that returns: if every poll finds a front of the buffer that it leaves, and the
-- poll `last` finds all of it, then a response that asks for the events from a number on that the
-- buffer has returns at that poll or before, whatever the heartbeats are. It has sent the events from
-- that number to the end, once each and in order: with 0 the whole stream, with the number behind a
-- Last-Event-ID what the client has not seen.
pub execute-Delivers :
    (fl : Floats) (p : SendMessage fl) (c : SendMessageCommand) (names : TurnNames)
    (s : ThreadStore) (heartbeat_interval poll_interval : fl.Float)
    (buffer_at : ℕ → List BufferedEvent) (held : ℕ → ℕ) (next last : ℕ)
    → (execute fl p c names s).ended ≡ TurnEnd.returned
    → ((i : ℕ) → buffer_at i ≡ take (held i) (execute fl p c names s).turn.buffer)
    → length (execute fl p c names s).turn.buffer ≤ held last
    → next < length (execute fl p c names s).turn.buffer
    → Delivers names.generation_id (drop next (execute fl p c names s).turn.buffer) (
        follow_buffer fl heartbeat_interval poll_interval buffer_at names.generation_id
          (suc last)
          0
          next
          fl.zero_float)
execute-Delivers fl p c names s heartbeat_interval poll_interval buffer_at held next last ended
      fronts whole some_left =
    elim (execute-Follows fl p c names s) [
      | inl (_, at) ↦
          follow-Delivers fl heartbeat_interval poll_interval buffer_at names.generation_id
            (execute fl p c names s).turn.buffer held
            (closed-IsComplete names.generation_id (execute fl p c names s).turn at) fronts
            (suc last) 0 next last fl.zero_float some_left whole (omega arith) (omega arith)
      | inr raised ↦ absurd (raised.0 ended)
    ]

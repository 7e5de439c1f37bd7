-- ===== src/Sse.antt =====
-- The stream as a client reads it, under apps/api/src/aether: `follow_buffer` of http/sse.py over
-- adapters/redis/stream_buffer.py. A frame stands for its bytes, a payload for its JSON text. That
-- the buffer expires is not modelled, nor is a connection that closes.
pub mod Complete
pub mod Reads
pub mod Resume
pub mod Delivery
use aether_ai_workspace.Base.{
  ℕ, zero, suc, ◌+◌, Bool, true, false, not, Option, none, some, List, [], ◌∷◌, ◌++◌, Text, codes,
  text_eq, leb, ltb, if◌then◌else◌,
}
use aether_ai_workspace.Domain.Entities.{Uuid}
use aether_ai_workspace.Retrieval.Floats.{Floats}
use aether_ai_workspace.Streaming.{PayloadValue, BufferedEvent}

-- `ZADD` of a member whose score is its `seq`: the set is kept by rising score.
unfoldable pub append : BufferedEvent → List BufferedEvent → List BufferedEvent
append e [] = e ∷ []
append e (x ∷ buffer) =
    let rest = append e buffer in if ltb e.seq x.seq then e ∷ x ∷ buffer else x ∷ rest

-- `ZRANGEBYSCORE` from `after_seq + 1`, which is the first argument.
unfoldable pub read_after : ℕ → List BufferedEvent → List BufferedEvent
read_after next [] = []
read_after next (e ∷ buffer) =
    let rest = read_after next buffer in if leb next e.seq then e ∷ rest else rest

pub data Frame : Type 0 where
  heartbeat : Frame
  event_frame :
      (generation_id : Uuid) (seq : ℕ) (event_type : Text) (payload : List (Text × PayloadValue))
      → Frame

unfoldable pub format_frame : Uuid → BufferedEvent → Frame
format_frame g e = Frame.event_frame g e.seq e.event_type e.data_of

abbrev pub is_done : BufferedEvent → Bool
is_done e = text_eq e.event_type (codes "done")

-- What a response has sent, and whether it has ended.
pub record Followed : Type 0 where
  pub frames : List Frame
  pub ended : Bool

unfoldable pub prefix : List Frame → Followed → Followed
prefix frames f = record f { frames = frames ++ f.frames }

-- The events of one poll: the frames up to the first `done`, with the cursor's next number behind
-- them, or none if there was a `done`.
unfoldable pub send : Uuid → ℕ → List BufferedEvent → List Frame × Option ℕ
unfolding format_frame
send g next [] = ([], some next)
send g next (e ∷ events) =
    let (frames, cursor) = send g (suc e.seq) events in
    if is_done e then (format_frame g e ∷ [], none) else (format_frame g e ∷ frames, cursor)

-- `follow_buffer`, with the intervals and with what the buffer holds at each poll; the first number
-- bounds the polls.
module _ (fl : Floats) (heartbeat_interval poll_interval : fl.Float)
    (buffer_at : ℕ → List BufferedEvent) (g : Uuid) where
  abbrev pub Rest : Type 0
  Rest = ℕ → fl.Float → Followed

  -- One poll without events, and one with some.
  unfoldable pub idle : Rest → ℕ → fl.Float → Followed
  unfolding prefix
  idle rest next elapsed =
      if fl.less elapsed heartbeat_interval
      then rest next (fl.plus elapsed poll_interval)
      else prefix (Frame.heartbeat ∷ []) (rest next (fl.plus fl.zero_float poll_interval))

  unfoldable pub deliver : Rest → List Frame × Option ℕ → Followed
  unfolding prefix
  deliver rest (frames, none) = record { frames = frames; ended = true }
  deliver rest (frames, some next) = prefix frames (rest next fl.zero_float)

  unfoldable pub answer_poll : Rest → ℕ → fl.Float → List BufferedEvent → Followed
  unfolding idle deliver send
  answer_poll rest next elapsed [] = idle rest next elapsed
  answer_poll rest next elapsed (e ∷ events) = deliver rest (send g next (e ∷ events))

  unfoldable pub follow_buffer : ℕ → ℕ → ℕ → fl.Float → Followed
  unfolding answer_poll read_after
  follow_buffer zero poll next elapsed = record { frames = []; ended = false }
  follow_buffer (suc polls) poll next elapsed =
      answer_poll (follow_buffer polls (suc poll)) next elapsed (read_after next (buffer_at poll))

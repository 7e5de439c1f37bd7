-- ===== src/Sse/Resume.antt =====
-- `follow_buffer` of apps/api/src/aether/http/sse.py on a buffer that is being filled: what a response
-- sends, from the first event on or behind a Last-Event-ID.
use aether_ai_workspace.Base.{
  arith, ℕ, zero, suc, ◌+◌, ◌-◌, ◌≤◌, ◌<◌, ◌≡◌, inl, inr, refl, ap, ◌∙◌, true, List, [], ◌∷◌, ◌++◌,
  map, length, take, drop, leb, Bool-cases, ltb, ltb→lt, leb→le, length-drop,
}
use aether_ai_workspace.Domain.Entities.{Uuid}
use aether_ai_workspace.Retrieval.Floats.{Floats}
use aether_ai_workspace.Streaming.{BufferedEvent}
use aether_ai_workspace.Sse.{
  format_frame, Followed, prefix, send, idle, deliver, answer_poll, follow_buffer,
}
use aether_ai_workspace.Sse.Complete.{IsComplete}
use aether_ai_workspace.Sse.Reads.{
  without_heartbeats, read_after-rest, read_after-none, drop-IsComplete, frames_of-append,
  frames_only, send-all, send-part, drop-drop, frames_of-take,
}

-- What a response has sent that ends with the last of the events.
abbrev pub Delivers : Uuid → List BufferedEvent → Followed → Type 0
Delivers g events f = (f.ended ≡ true) × (without_heartbeats f.frames ≡ map (format_frame g) events)

module _ (fl : Floats) (heartbeat_interval poll_interval : fl.Float)
    (buffer_at : ℕ → List BufferedEvent) (g : Uuid) where
  abbrev follow : ℕ → ℕ → ℕ → fl.Float → Followed
  follow = follow_buffer fl heartbeat_interval poll_interval buffer_at g

  abbrev answer_poll_with : (ℕ → fl.Float → Followed) → ℕ → fl.Float → List BufferedEvent → Followed
  answer_poll_with = answer_poll fl heartbeat_interval poll_interval buffer_at g

  -- A poll that reads something.
  answer_poll-front :
      (rest : ℕ → fl.Float → Followed) (next j : ℕ) (elapsed : fl.Float)
      (events : List BufferedEvent)
      → 0 < j
      → 0 < length events
      → answer_poll_with rest next elapsed (take j events)
        ≡ deliver fl heartbeat_interval poll_interval buffer_at g rest (send g next (take j events))
  unfolding answer_poll
  answer_poll-front rest next zero elapsed events some_read some_left = ground arith
  answer_poll-front rest next (suc j) elapsed [] some_read some_left = ground arith
  answer_poll-front rest next (suc j) elapsed (e ∷ events) some_read some_left = refl

  -- A poll that reads nothing adds a heartbeat at most.
  idle-Delivers :
      (rest : ℕ → fl.Float → Followed) (next : ℕ) (elapsed : fl.Float) (events : List BufferedEvent)
      → ((e : fl.Float) → Delivers g events (rest next e))
      → Delivers g events (idle fl heartbeat_interval poll_interval buffer_at g rest next elapsed)
  unfolding idle prefix without_heartbeats
  idle-Delivers rest next elapsed events h =
      elim (Bool-cases (fl.less elapsed heartbeat_interval)) [
        | inl e ↦ rw e (h (fl.plus elapsed poll_interval))
        | inr e ↦ rw e (h (fl.plus fl.zero_float poll_interval))
      ]

  -- A poll that reads a front of what is left.
  read-Delivers :
      (rest : ℕ → fl.Float → Followed) (next j : ℕ) (elapsed : fl.Float) (left : List BufferedEvent)
      → IsComplete next left
      → 0 < j
      → 0 < length left
      → (j < length left → Delivers g (drop j left) (rest (next + j) fl.zero_float))
      → Delivers g left (answer_poll_with rest next elapsed (take j left))
  unfolding deliver prefix without_heartbeats
  read-Delivers rest next j elapsed left complete some_read some_left h =
      let answered = answer_poll-front rest next j elapsed left some_read some_left in
      elim (Bool-cases (ltb j (length left))) [
        | inl part ↦
            let lt : j < length left = ltb→lt j (length left) part in
            let (ended, sent) = h lt in
            rw (answered, send-part g next j left complete lt)
              (
                ended,
                frames_of-append g (take j left) (rest (next + j) fl.zero_float).frames
                    ∙ ap (λ l. map (format_frame g) (take j left) ++ l) sent
                    ∙ frames_of-take g j left,
              )
        | inr whole ↦
            rw (answered, send-all g next j left complete (ground arith)) (refl, frames_only g left)
      ]

  module _ (events : List BufferedEvent) (held : ℕ → ℕ) (complete : IsComplete 0 events)
      (fronts : (i : ℕ) → buffer_at i ≡ take (held i) events) where
    -- A poll that finds less than the whole comes before the one that finds it.
    before_last :
        (poll last : ℕ)
        → poll ≤ last
        → held poll < length events
        → length events ≤ held last
        → poll < last
    before_last poll last by short whole = elim (Bool-cases (ltb poll last)) [
      | inl e ↦ ltb→lt poll last e
      | inr e ↦
          let same : last ≡ poll = ground arith in
          let as_held : held last ≡ held poll = ap held same in
          let clash : held poll < held poll = omega arith in absurd (omega arith)
    ]

    -- Each poll up to that one reads a front of what is left.
    pub follow-Delivers :
        (polls poll next last : ℕ) (elapsed : fl.Float)
        → next < length events
        → length events ≤ held last
        → poll ≤ last
        → last < poll + polls
        → Delivers g (drop next events) (follow polls poll next elapsed)
    unfolding follow_buffer
    follow-Delivers zero poll next last elapsed some_left whole by enough = ground arith
    follow-Delivers (suc polls) poll next last elapsed some_left whole by enough =
        let rest = follow polls (suc poll) in
        let left = drop next events in
        elim (Bool-cases (leb (held poll) next)) [
          | inl nothing_new ↦
              let le : held poll ≤ next = leb→le (held poll) next nothing_new in
              let before = before_last poll last by (omega arith) whole in
              let read = read_after-none 0 next next (held poll) events complete (omega arith) le in
              let idles = idle-Delivers rest next elapsed left (λ e.
                follow-Delivers polls (suc poll) next last e some_left whole (omega arith)
                  (omega arith)) in
              rw (fronts poll, read) idles
          | inr some_new ↦
              let j : ℕ = held poll - next in
              let shape : held poll ≡ next + j = ground arith in
              let some_read : 0 < j = ground arith in
              let at : IsComplete next left =
                drop-IsComplete 0 next next events complete (omega arith) some_left in
              let many : length left ≡ length events - next = length-drop next events in
              let read = read_after-rest 0 next next j events complete (omega arith) some_left in
              let step = read-Delivers rest next j elapsed left at some_read (omega arith) (λ lt.
                let before = before_last poll last by (omega arith) whole in
                rw (drop-drop next j events) (
                  follow-Delivers polls (suc poll) (next + j) last fl.zero_float (omega arith) whole
                    (omega arith) (omega arith))) in
              rw (fronts poll, shape, read) step
        ]

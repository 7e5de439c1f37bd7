-- ===== src/Sse/Reads.antt =====
-- The reads and the frames of one poll of `follow_buffer` (apps/api/src/aether/http/sse.py), on a front
-- of a complete buffer.
use aether_ai_workspace.Base.{
  arith, ℕ, zero, suc, ◌+◌, ◌≤◌, ◌<◌, ◌≡◌, refl, ap, true, false, none, some, List, [], ◌∷◌, ◌++◌,
  map, length, take, drop, leb,
}
use aether_ai_workspace.Domain.Entities.{Uuid}
use aether_ai_workspace.Streaming.{BufferedEvent}
use aether_ai_workspace.Sse.{read_after, Frame, format_frame, send}
use aether_ai_workspace.Sse.Complete.{IsComplete}

-- The event frames among the frames.
unfoldable pub without_heartbeats : List Frame → List Frame
without_heartbeats [] = []
without_heartbeats (Frame.heartbeat ∷ frames) = without_heartbeats frames
without_heartbeats (Frame.event_frame g n k d ∷ frames) =
    Frame.event_frame g n k d ∷ without_heartbeats frames

take-nil : (n : ℕ) → take {A = BufferedEvent} n [] ≡ []
take-nil zero = refl
take-nil (suc n) = refl

-- What a poll reads of a front of a complete buffer: all of it if nothing of it was read before;
read_after-all :
    (b next n : ℕ) (events : List BufferedEvent)
    → IsComplete b events
    → next ≤ b
    → read_after next (take n events) ≡ take n events
unfolding read_after
read_after-all b next zero events h le = refl
read_after-all b next (suc n) [] h le = elim h [ ]
read_after-all b next (suc n) (e ∷ []) (number, ends) le =
    let later : leb next e.seq ≡ true = ground arith in rw later (rw (take-nil n) refl)
read_after-all b next (suc n) (e ∷ x ∷ events) (number, goes_on, h) le =
    let later : leb next e.seq ≡ true = ground arith in
    rw later (ap (λ l. e ∷ l) (read_after-all (suc b) next n (x ∷ events) h (omega arith)))

-- what stands behind the `k` events that were read before, if the front is longer;
pub read_after-rest :
    (b next k j : ℕ) (events : List BufferedEvent)
    → IsComplete b events
    → next ≡ b + k
    → k < length events
    → read_after next (take (k + j) events) ≡ take j (drop k events)
unfolding read_after
read_after-rest b next zero j events h at lt =
    let same : 0 + j ≡ j = omega arith in rw same (read_after-all b next j events h (omega arith))
read_after-rest b next (suc k) j [] h at lt = elim h [ ]
read_after-rest b next (suc k) j (e ∷ []) h at lt = ground arith
read_after-rest b next (suc k) j (e ∷ x ∷ events) (number, goes_on, h) at lt =
    let before : leb next e.seq ≡ false = ground arith in
    let shape : suc k + j ≡ suc (k + j) = omega arith in
    rw (shape, before) (read_after-rest (suc b) next k j (x ∷ events) h (omega arith) (omega arith))

-- and nothing if it is not.
pub read_after-none :
    (b next k n : ℕ) (events : List BufferedEvent)
    → IsComplete b events
    → next ≡ b + k
    → n ≤ k
    → read_after next (take n events) ≡ []
unfolding read_after
read_after-none b next k zero events h at le = refl
read_after-none b next k (suc n) [] h at le = elim h [ ]
read_after-none b next zero (suc n) (e ∷ events) h at le = ground arith
read_after-none b next (suc k) (suc n) (e ∷ []) (number, ends) at le =
    let before : leb next e.seq ≡ false = ground arith in rw before (rw (take-nil n) refl)
read_after-none b next (suc k) (suc n) (e ∷ x ∷ events) (number, goes_on, h) at le =
    let before : leb next e.seq ≡ false = ground arith in
    rw before (read_after-none (suc b) next k n (x ∷ events) h (omega arith) (omega arith))

pub drop-IsComplete :
    (b n k : ℕ) (events : List BufferedEvent)
    → IsComplete b events
    → n ≡ b + k
    → k < length events
    → IsComplete n (drop k events)
drop-IsComplete b n zero events h at lt = let same : n ≡ b = omega arith in rw same h
drop-IsComplete b n (suc k) [] h at lt = elim h [ ]
drop-IsComplete b n (suc k) (e ∷ []) h at lt = ground arith
drop-IsComplete b n (suc k) (e ∷ x ∷ events) (number, goes_on, h) at lt =
    drop-IsComplete (suc b) n k (x ∷ events) h (omega arith) (omega arith)

pub frames_of-append :
    (g : Uuid) (events : List BufferedEvent) (frames : List Frame)
    → without_heartbeats (map (format_frame g) events ++ frames)
      ≡ map (format_frame g) events ++ without_heartbeats frames
unfolding without_heartbeats format_frame
frames_of-append g [] frames = refl
frames_of-append g (e ∷ events) frames =
    ap (λ l. format_frame g e ∷ l) (frames_of-append g events frames)

pub frames_only :
    (g : Uuid) (events : List BufferedEvent)
    → without_heartbeats (map (format_frame g) events) ≡ map (format_frame g) events
unfolding without_heartbeats format_frame
frames_only g [] = refl
frames_only g (e ∷ events) = ap (λ l. format_frame g e ∷ l) (frames_only g events)

-- All that is left: it ends with `done`.
pub send-all :
    (g : Uuid) (next n : ℕ) (events : List BufferedEvent)
    → IsComplete next events
    → length events ≤ n
    → send g next (take n events) ≡ (map (format_frame g) events, none)
unfolding send
send-all g next n [] h le = elim h [ ]
send-all g next zero (e ∷ events) h le = ground arith
send-all g next (suc zero) (e ∷ []) (number, ends) le = rw ends refl
send-all g next (suc (suc n)) (e ∷ []) (number, ends) le = rw ends refl
send-all g next (suc n) (e ∷ x ∷ events) (number, goes_on, h) le =
    let at : IsComplete (suc e.seq) (x ∷ events) = rw number h in
    let rest = send-all g (suc e.seq) n (x ∷ events) at (omega arith) in rw (goes_on, rest) refl

-- A part of it: the cursor stands behind the part.
pub send-part :
    (g : Uuid) (next n : ℕ) (events : List BufferedEvent)
    → IsComplete next events
    → n < length events
    → send g next (take n events) ≡ (map (format_frame g) (take n events), some (next + n))
unfolding send
send-part g next zero events h lt = let same : next + 0 ≡ next = omega arith in rw same refl
send-part g next (suc n) [] h lt = elim h [ ]
send-part g next (suc n) (e ∷ []) h lt = ground arith
send-part g next (suc n) (e ∷ x ∷ events) (number, goes_on, h) lt =
    let at : IsComplete (suc e.seq) (x ∷ events) = rw number h in
    let rest = send-part g (suc e.seq) n (x ∷ events) at (omega arith) in
    let same : suc e.seq + n ≡ next + suc n = omega arith in rw (goes_on, rest, same) refl

pub drop-drop :
    (n j : ℕ) (events : List BufferedEvent) → drop j (drop n events) ≡ drop (n + j) events
drop-drop zero j events = let same : 0 + j ≡ j = omega arith in rw same refl
drop-drop (suc n) zero [] = let same : suc n + 0 ≡ suc n = omega arith in rw same refl
drop-drop (suc n) (suc j) [] =
    let shape : suc n + suc j ≡ suc (suc n + j) = omega arith in rw shape refl
drop-drop (suc n) j (e ∷ events) =
    let shape : suc n + j ≡ suc (n + j) = omega arith in rw shape (drop-drop n j events)

pub frames_of-take :
    (g : Uuid) (n : ℕ) (events : List BufferedEvent)
    → map (format_frame g) (take n events) ++ map (format_frame g) (drop n events)
      ≡ map (format_frame g) events
frames_of-take g zero events = refl
frames_of-take g (suc n) [] = refl
frames_of-take g (suc n) (e ∷ events) = ap (λ l. format_frame g e ∷ l) (frames_of-take g n events)

-- ===== src/Turn/Retry.antt =====
-- A request that is sent again (apps/api/src/aether/app/chat/send_message.py), over the numbers of the
-- thread's messages (adapters/postgres/message_repository.py).
use aether_ai_workspace.Base.{
  arith, ℕ, suc, ◌≤◌, ◌≡◌, ◌≢◌, inl, inr, refl, sym, ◌∙◌, true, false, none, some, List, [], ◌∷◌,
  ◌++◌, append-nil, text_eq_refl, ◌==◌, ==_iff, Option-cases, or_else, find_row, find_row-append,
  find_row-new,
}
use aether_ai_workspace.Domain.Entities.{Message, Citation}
use aether_ai_workspace.Retrieval.Floats.{Floats}
use aether_ai_workspace.Streaming.{GenerationStatus, StreamEvent}
use aether_ai_workspace.Turn.Store.{
  ThreadStore, create, has_client_message_id, has_seq, find_by_client_message_id, find_by_seq,
}
use aether_ai_workspace.Turn.Ports.{SendMessageCommand, TurnNames, SendMessage, Turn, emit}
use aether_ai_workspace.Turn.Replay.{replay, emit_citations, model_or_unknown, replayed_citations}
use aether_ai_workspace.Turn.Execute.{
  TurnEnd, TurnRun, start_turn, user_row, admit, retry, run_turn, dispatch, execute,
}
use aether_ai_workspace.Turn.Text.{delta_of, streamed_text, emit-silent, emit_citations-Silent}
use aether_ai_workspace.Turn.Kept.{KeepsReply}
use aether_ai_workspace.Turn.Outcome.{Keeps, admit-Keeps, run_turn-Keeps}

-- The messages are numbered in the order of their creation, below the thread's counter.
abbrev pub Ascend : ℕ → List Message → ℕ → Type 0
Ascend low [] high = low ≤ high
Ascend low (m ∷ ms) high = (low ≤ m.seq) × Ascend (suc m.seq) ms high

abbrev pub IsNumbered : ThreadStore → Type 0
IsNumbered s = Ascend 0 s.messages (or_else s.next_seq 1)

Ascend-append :
    (low : ℕ) (ms : List Message) (high : ℕ) (m : Message)
    → Ascend low ms high
    → m.seq ≡ high
    → Ascend low (ms ++ (m ∷ [])) (suc m.seq)
Ascend-append low [] high m h e = (omega arith, omega arith)
Ascend-append low (x ∷ ms) high m h e = (h.0, Ascend-append (suc x.seq) ms high m h.1 e)

Ascend-low : (low : ℕ) (ms : List Message) (high : ℕ) → Ascend low ms high → low ≤ high
Ascend-low low [] high h = h
Ascend-low low (x ∷ ms) high h = omega (arith, Ascend-low (suc x.seq) ms high h.1)

-- A number that the counter has not reached is none of the messages'.
find_seq-beyond :
    (low : ℕ) (ms : List Message) (high seq : ℕ)
    → Ascend low ms high
    → high ≤ seq
    → find_row (has_seq seq) ms ≡ none
unfolding find_row
find_seq-beyond low [] high seq h le = refl
find_seq-beyond low (m ∷ ms) high seq h le =
    let rest = find_seq-beyond (suc m.seq) ms high seq h.1 le in
    let bound = Ascend-low (suc m.seq) ms high h.1 in
    let other : (m.seq == seq) ≡ false = ground arith in rw other rest

user_row-IsNumbered :
    (c : SendMessageCommand) (names : TurnNames) (s : ThreadStore)
    → IsNumbered s
    → IsNumbered (create (user_row c names) s).1
unfolding create user_row
user_row-IsNumbered c names s h =
    let n = or_else s.next_seq 1 in Ascend-append 0 s.messages n (user_row c names n) h refl

Keeps-IsNumbered : (s : ThreadStore) (t : Turn) → Keeps s t → IsNumbered s → IsNumbered t.store
Keeps-IsNumbered s t (inl k) h =
    let longer = Ascend-append 0 s.messages (or_else s.next_seq 1) k.reply h k.numbered in
    rw (k.added, k.counted) longer
Keeps-IsNumbered s t (inr k) h = rw (k.same_messages, k.same_counter) h

module _ (fl : Floats) (p : SendMessage fl) (c : SendMessageCommand) (names : TurnNames) where
  replay-Silent :
      (reply : Message) (citations : List Citation) (s : ThreadStore)
      → (streamed_text (replay names.generation_id reply citations (start_turn s)).yielded
          ≡ reply.content)
        × ((replay names.generation_id reply citations (start_turn s)).store ≡ s)
  unfolding replay emit start_turn delta_of streamed_text
  replay-Silent reply citations s =
      let g = names.generation_id in
      let opened =
        emit (λ n. StreamEvent.meta g n (model_or_unknown reply.model) reply.grounded)
          (start_turn s) in
      let told = emit (λ n. StreamEvent.token g n reply.content) opened in
      let cited = emit_citations g citations told in
      let silent = emit_citations-Silent g citations told in
      let usage_event : ℕ → StreamEvent = λ n.
        StreamEvent.usage g n (or_else reply.prompt_tokens 0) (or_else reply.completion_tokens 0)
          (or_else reply.cost_microcents 0) in
      (
        emit-silent (λ n. StreamEvent.done g n GenerationStatus.complete) (emit usage_event cited)
              refl
            ∙ emit-silent usage_event cited refl
            ∙ silent.same_text
            ∙ append-nil reply.content,
        silent.same_store,
      )

  -- The numbers stay in order, whatever a request does.
  pub execute-IsNumbered :
      (s : ThreadStore) → IsNumbered s → IsNumbered (execute fl p c names s).turn.store
  unfolding execute dispatch retry user_row
  execute-IsNumbered s h = elim (Option-cases (find_by_client_message_id c.client_message_id s)) [
    | inl e ↦ elim (admit-Keeps fl p c names s) [
      | inl refused ↦ rw (e, refused.1) h
      | inr keeps ↦ rw e (
          Keeps-IsNumbered (create (user_row c names) s).1 (admit fl p c names s).turn keeps
            (user_row-IsNumbered c names s h))
    ]
    | inr (asked, e) ↦ elim (Option-cases (find_by_seq (suc asked.seq) s)) [
      | inl e' ↦
          rw (e, e')
            (Keeps-IsNumbered s (run_turn fl p c names s).turn (run_turn-Keeps fl p c names s) h)
      | inr (reply, e') ↦
          let (told, same) =
            replay-Silent reply (replayed_citations p.in_some_order c.workspace_id reply s) s in
          rw (e, e', same) h
    ]
  ]

-- What a retry finds once the first request has kept its reply.
module _ (c : SendMessageCommand) (names : TurnNames) (s : ThreadStore) (t : Turn)
    (numbered : IsNumbered s) (fresh : find_by_client_message_id c.client_message_id s ≡ none)
    (k : KeepsReply (create (user_row c names) s).1 t) where
  find_question :
      find_by_client_message_id c.client_message_id t.store
      ≡ some (user_row c names (or_else s.next_seq 1))
  unfolding find_by_client_message_id create user_row
  find_question =
      let asked = user_row c names (or_else s.next_seq 1) in
      let named = has_client_message_id c.client_message_id in
      rw k.added (
        find_row-append named (s.messages ++ (asked ∷ [])) (k.reply ∷ []) asked
          (find_row-new named s.messages asked fresh (text_eq_refl c.client_message_id)))

  find_reply : find_by_seq (suc (or_else s.next_seq 1)) t.store ≡ some k.reply
  unfolding find_by_seq create
  find_reply =
      let n = or_else s.next_seq 1 in
      let before = user_row-IsNumbered c names s numbered in
      let absent =
        find_seq-beyond 0 (create (user_row c names) s).1.messages (suc n) (suc n) before
          (omega arith) in
      let own : (k.reply.seq == suc n) ≡ true = (==_iff k.reply.seq (suc n)).1 k.numbered in
      rw k.added (find_row-new (has_seq (suc n)) _ k.reply absent own)

-- The answer returns with the text of the turn, and leaves everything in the thread as it was.
abbrev pub Repeats : Turn → TurnRun → Type 0
Repeats t again =
    (again.ended ≡ TurnEnd.returned)
    × (again.turn.store ≡ t.store)
    × (streamed_text again.turn.yielded ≡ streamed_text t.yielded)

retry-Repeats :
    (fl : Floats) (p' : SendMessage fl) (c : SendMessageCommand) (names names' : TurnNames)
    (s : ThreadStore) (t : Turn)
    → IsNumbered s
    → find_by_client_message_id c.client_message_id s ≡ none
    → KeepsReply (create (user_row c names) s).1 t
    → Repeats t (execute fl p' c names' t.store)
unfolding execute dispatch retry user_row
retry-Repeats fl p' c names names' s t numbered fresh k =
    let question = find_question c names s t numbered fresh k in
    let answered = find_reply c names s t numbered fresh k in
    let (told, same) =
      replay-Silent fl p' c names' k.reply
        (replayed_citations p'.in_some_order c.workspace_id k.reply t.store) t.store in
    rw (question, answered) (refl, same, told ∙ k.is_streamed)

-- Of a thread whose numbers are in order: a request that is new to it, and that streamed some text,
-- may be sent again, with other ids and whatever the ports do then. The answer returns with the same
-- text, and it changes no message, no citation, no summary and no account.
pub execute-Repeats :
    (fl : Floats) (p p' : SendMessage fl) (c : SendMessageCommand) (names names' : TurnNames)
    (s : ThreadStore)
    → IsNumbered s
    → find_by_client_message_id c.client_message_id s ≡ none
    → streamed_text (execute fl p c names s).turn.yielded ≢ []
    → Repeats
        (execute fl p c names s).turn
        (execute fl p' c names' (execute fl p c names s).turn.store)
unfolding execute dispatch streamed_text
execute-Repeats fl p p' c names names' s numbered fresh spoke =
    let run = admit fl p c names s in
    let same : execute fl p c names s ≡ run = rw fresh refl in
    let spoke' : streamed_text run.turn.yielded ≢ [] = rw (sym same) spoke in
    rw same (elim (admit-Keeps fl p c names s) [
      | inl refused ↦ absurd (spoke' (rw refused.2 refl))
      | inr (inl k) ↦ retry-Repeats fl p' c names names' s run.turn numbered fresh k
      | inr (inr k) ↦ absurd (spoke' k.is_silent)
    ])

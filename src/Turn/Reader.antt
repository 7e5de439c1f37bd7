-- ===== src/Turn/Reader.antt =====
-- A reader of the stream of a turn (apps/api/src/aether/app/chat/send_message.py): its place in the
-- grammar after each event that `buffer_and_yield` passes on.
use aether_ai_workspace.Base.{
  ℕ, ◌≡◌, refl, ap, ◌⊎◌, inl, inr, Bool, true, false, some, List, [], ◌∷◌, ◌++◌, map,
}
use aether_ai_workspace.Domain.Entities.{Uuid, Citation}
use aether_ai_workspace.Streaming.{
  GenerationStatus, StreamEvent, generation_of, seq_of, to_buffered,
}
use aether_ai_workspace.Streaming.Grammar.{StreamPhase, is_failure, next_phase, Reads, Reads-append}
use aether_ai_workspace.Turn.Ports.{Turn, emit}
use aether_ai_workspace.Turn.Replay.{emit_citations, citation_event}

-- The reader's place after a turn's events, which the buffer holds one by one.
pub record At (g : Uuid) (phase : StreamPhase) (t : Turn) : Type 0 where
  pub reads : Reads g t.yielded t.seq phase
  pub buffered : t.buffer ≡ map to_buffered t.yielded

-- Where citations may come: `failed` says that an error came.
abbrev pub Cites : Bool → StreamPhase → Type 0
Cites failed phase =
    (phase ≡ StreamPhase.citing failed) ⊎ ((phase ≡ StreamPhase.streaming) × (failed ≡ false))

map-append :
    (es : List StreamEvent) (e : StreamEvent)
    → map to_buffered (es ++ (e ∷ [])) ≡ map to_buffered es ++ (to_buffered e ∷ [])
map-append [] e = refl
map-append (x ∷ es) e = ap (λ l. to_buffered x ∷ l) (map-append es e)

pub emit-At :
    (g : Uuid) (phase after : StreamPhase) (event : ℕ → StreamEvent) (t : Turn)
    → generation_of (event t.seq) ≡ g
    → seq_of (event t.seq) ≡ t.seq
    → next_phase phase (event t.seq) ≡ some after
    → At g phase t
    → At g after (emit event t)
unfolding emit
emit-At g phase after event t of_g of_n allowed h = record {
  reads = Reads-append g t.yielded t.seq phase after (event t.seq) h.reads of_g of_n allowed;
  buffered = rw (map-append t.yielded (event t.seq), h.buffered) refl;
}

pub emit_citations-At :
    (g : Uuid) (failed : Bool) (citations : List Citation) (phase : StreamPhase) (t : Turn)
    → Cites failed phase
    → At g phase t
    → (after : StreamPhase) × Cites failed after × At g after (emit_citations g citations t)
unfolding emit_citations citation_event generation_of seq_of next_phase
emit_citations-At g failed [] phase t cites h = (phase, cites, h)
emit_citations-At g failed (c ∷ citations) phase t (inl e) h =
    emit_citations-At g failed citations (StreamPhase.citing failed) (emit (citation_event g c) t)
      (inl refl)
      (emit-At g phase (StreamPhase.citing failed) (citation_event g c) t refl refl (rw e refl) h)
emit_citations-At g failed (c ∷ citations) phase t (inr (e, clear)) h =
    emit_citations-At g failed citations (StreamPhase.citing failed) (emit (citation_event g c) t)
      (inl refl)
      (emit-At g phase (StreamPhase.citing failed) (citation_event g c) t refl refl
        (rw (e, clear) refl) h)

usage_next :
    (failed : Bool) (phase : StreamPhase) (g : Uuid) (n p c k : ℕ)
    → Cites failed phase
    → next_phase phase (StreamEvent.usage g n p c k) ≡ some (StreamPhase.metered failed)
unfolding next_phase
usage_next failed phase g n p c k (inl e) = rw e refl
usage_next failed phase g n p c k (inr (e, clear)) = rw (e, clear) refl

done_next :
    (failed : Bool) (g : Uuid) (n : ℕ) (status : GenerationStatus)
    → is_failure status ≡ failed
    → next_phase (StreamPhase.metered failed) (StreamEvent.done g n status)
      ≡ some StreamPhase.closed
unfolding next_phase
done_next true g n status e = rw e refl
done_next false g n status e = rw e refl

-- `usage` and `done`.
pub ending-At :
    (g : Uuid) (p c k : ℕ) (status : GenerationStatus) (failed : Bool) (phase : StreamPhase)
    (t : Turn)
    → Cites failed phase
    → is_failure status ≡ failed
    → At g phase t
    → At g StreamPhase.closed
        (emit (λ n. StreamEvent.done g n status) (emit (λ n. StreamEvent.usage g n p c k) t))
unfolding generation_of seq_of
ending-At g p c k status failed phase t cites told h =
    emit-At g (StreamPhase.metered failed) StreamPhase.closed (λ n. StreamEvent.done g n status)
      (emit (λ n. StreamEvent.usage g n p c k) t) refl refl
      (done_next failed g (emit (λ n. StreamEvent.usage g n p c k) t).seq status told)
      (emit-At g phase (StreamPhase.metered failed) (λ n. StreamEvent.usage g n p c k) t refl refl
        (usage_next failed phase g t.seq p c k cites) h)

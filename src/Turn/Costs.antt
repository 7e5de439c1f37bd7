-- ===== src/Turn/Costs.antt =====
-- What a turn costs: the usage events of its stream, and the ledger
-- (apps/api/src/aether/app/chat/send_message.py).
use aether_ai_workspace.Base.{
  arith, ℕ, suc, ◌+◌, ◌≡◌, inl, inr, refl, ◌∙◌, Bool, Option, none, some, List, [], ◌∷◌, ◌++◌, Text,
  Bool-cases,
}
use aether_ai_workspace.Domain.Entities.{Uuid, Citation}
use aether_ai_workspace.Router.Relay.{GeneratorChunk, text, generation_usage, Exn}
use aether_ai_workspace.Streaming.{StreamEvent}
use aether_ai_workspace.Turn.Ports.{Turn, emit}
use aether_ai_workspace.Turn.Replay.{citation_event, emit_citations}
use aether_ai_workspace.Turn.Generation.{Loop, report, end_loop, take_chunk, stream_chunks, finish}

unfoldable pub cost_of : StreamEvent → ℕ
cost_of (StreamEvent.usage _ _ _ _ cost_microcents) = cost_microcents
cost_of _ = 0

-- The cost that the usage events tell the client.
unfoldable pub reported_cost : List StreamEvent → ℕ
unfolding cost_of
reported_cost [] = 0
reported_cost (e ∷ es) = cost_of e + reported_cost es

reported_cost-append :
    (es : List StreamEvent) (e : StreamEvent)
    → reported_cost (es ++ (e ∷ [])) ≡ reported_cost es + cost_of e
unfolding reported_cost
reported_cost-append [] e = omega arith
reported_cost-append (x ∷ es) e = omega (arith, reported_cost-append es e)

pub emit-reported_cost :
    (event : ℕ → StreamEvent) (t : Turn)
    → reported_cost (emit event t).yielded ≡ reported_cost t.yielded + cost_of (event t.seq)
unfolding emit
emit-reported_cost event t = reported_cost-append t.yielded (event t.seq)

pub emit-free :
    (event : ℕ → StreamEvent) (t : Turn)
    → cost_of (event t.seq) ≡ 0
    → reported_cost (emit event t).yielded ≡ reported_cost t.yielded
emit-free event t free = omega (arith, emit-reported_cost event t)

pub emit_citations-free :
    (g : Uuid) (citations : List Citation) (t : Turn)
    → reported_cost (emit_citations g citations t).yielded ≡ reported_cost t.yielded
unfolding emit_citations citation_event cost_of
emit_citations-free g [] t = refl
emit_citations-free g (c ∷ citations) t =
    emit_citations-free g citations (emit (citation_event g c) t)
    ∙ emit-free (citation_event g c) t refl

pub report-free :
    (g : Uuid) (error : Option (Text × Text)) (t : Turn)
    → reported_cost (report g error t).yielded ≡ reported_cost t.yielded
unfolding report cost_of
report-free g none t = refl
report-free g (some (code, message)) t =
    emit-free (λ n. StreamEvent.failure g n code message) t refl

pub finish-costs :
    (g : Uuid) (l : Loop) (t : Turn)
    → reported_cost (finish g l t).yielded ≡ reported_cost t.yielded + l.cost_microcents
unfolding finish cost_of
finish-costs g l t =
    let event : ℕ → StreamEvent =
      λ n. StreamEvent.usage g n l.prompt_tokens l.completion_tokens l.cost_microcents in
    emit-free (λ n. StreamEvent.done g n l.status) (emit event t) refl ∙ emit-reported_cost event t

module _ (is_cancelled : ℕ → Bool) (exn_text : Exn → Text) (g : Uuid) where
  -- The loop reports no cost.
  pub stream_chunks-free :
      (i : ℕ) (chunks : List GeneratorChunk) (raised : Option Exn) (l : Loop)
      → reported_cost (stream_chunks is_cancelled exn_text g i chunks raised l).turn.yielded
        ≡ reported_cost l.turn.yielded
  unfolding stream_chunks end_loop take_chunk cost_of
  stream_chunks-free i [] (some e) l = refl
  stream_chunks-free i [] none l = elim (Bool-cases (is_cancelled i)) [
    | inl e ↦ rw e refl
    | inr e ↦ rw e refl
  ]
  stream_chunks-free i (generation_usage u ∷ chunks) raised l = elim (Bool-cases (is_cancelled i)) [
    | inl e ↦ rw e refl
    | inr e ↦ rw e (stream_chunks-free (suc i) chunks raised (take_chunk g (generation_usage u) l))
  ]
  stream_chunks-free i (text delta ∷ chunks) raised l = elim (Bool-cases (is_cancelled i)) [
    | inl e ↦ rw e refl
    | inr e ↦ rw e (
        stream_chunks-free (suc i) chunks raised (take_chunk g (text delta) l)
        ∙ emit-free (λ n. StreamEvent.token g n delta) l.turn refl)
  ]

-- ===== src/Coordinator/Answers/Frames.antt =====
-- An answer is applied to messages and events alone, and the task keeps its id.
use luis_puentes.Prelude.{
  String, ◌≡◌, refl, ap, Option, none, some, List, [], ◌∷◌, ◌==◌, take, Bool-cases, inl, inr,
}
use luis_puentes.Result.{Result, ok, raise}
use luis_puentes.Models.{Json, TaskEnvelope, ArtifactClaim}
use luis_puentes.State.{Store, utcnow, uuid4, append_event}
use luis_puentes.State.Laws.{>>=-ok}
use luis_puentes.State.Keeps.{Keeps, >>=-Keeps}
use luis_puentes.State.Frames.{On, append_event-On, save_message-On}
use luis_puentes.State.Messages.{save_message}
use luis_puentes.Coordinator.Inbox.{MessageRequest, inbox_send}
use luis_puentes.Coordinator.Inbox.Proposals.{
  Verdict, accepted, refused, judge_proposal, proposed, fields_of, record_rejected_proposal,
  enqueue_agent_proposal,
}
use luis_puentes.Coordinator.Answers.{
  Answer, read_answer, enqueue_proposals, apply_answer, apply_payload, apply_agent_response,
}
use luis_puentes.Coordinator.Answers.Fence.{strip_code_fence}

module _ (P : List TaskEnvelope → List ArtifactClaim → String → Type 0) where
  record_rejected_proposal-On :
      (task : TaskEnvelope) (proposal : Json) (reason : String)
      → Keeps (On P) (record_rejected_proposal task proposal reason)
  unfolding record_rejected_proposal utcnow uuid4
  record_rejected_proposal-On task proposal reason s h =
      >>=-Keeps (On P) (save_message _) _ (save_message-On P _)
        (λ _. >>=-Keeps (On P) (append_event _ _ _ _) _ (append_event-On P _ _ _ _) (λ _ u k. k))
        (record s { clock_reads = _; ids_drawn = _ }) h

  inbox_send-On : (r : MessageRequest) → Keeps (On P) (inbox_send r)
  unfolding inbox_send utcnow uuid4
  inbox_send-On r s h =
      >>=-Keeps (On P) (save_message _) _ (save_message-On P _)
        (λ _. >>=-Keeps (On P) (append_event _ _ _ _) _ (append_event-On P _ _ _ _) (λ _ u k. k))
        (record s { clock_reads = _; ids_drawn = _ }) h

  enqueue_agent_proposal-On :
      (task : TaskEnvelope) (proposal : Json) → Keeps (On P) (enqueue_agent_proposal task proposal)
  unfolding enqueue_agent_proposal
  enqueue_agent_proposal-On task proposal s h = go (judge_proposal s proposal) refl
    where
      go :
          (v : Verdict)
          → judge_proposal s proposal ≡ v
          → On P (enqueue_agent_proposal task proposal s).1
      go (refused reason) e = rw e (
          >>=-Keeps (On P) (record_rejected_proposal task proposal reason) _
            (record_rejected_proposal-On task proposal reason) (λ _ u k. k) s h)
      go (accepted lane_key objective) e = rw e (
          >>=-Keeps (On P) (inbox_send (proposed task (fields_of proposal) lane_key objective)) _
            (inbox_send-On _) (λ _ u k. k) s h)

  enqueue_proposals-On :
      (task : TaskEnvelope) (proposals : List Json)
      → Keeps (On P) (enqueue_proposals task proposals)
  unfolding enqueue_proposals
  enqueue_proposals-On task [] s h = h
  enqueue_proposals-On task (p ∷ ps) s h =
      >>=-Keeps (On P) (enqueue_agent_proposal task p) _ (enqueue_agent_proposal-On task p)
        (λ id.
          >>=-Keeps (On P) (enqueue_proposals task ps) _ (enqueue_proposals-On task ps)
            (λ _ u k. k))
        s h

  apply_answer-On : (task : TaskEnvelope) (a : Answer) → Keeps (On P) (apply_answer task a)
  unfolding apply_answer
  apply_answer-On task a =
      >>=-Keeps (On P) (enqueue_proposals _ (take 8 a.proposals)) _
        (enqueue_proposals-On _ (take 8 a.proposals)) (λ _ u k. k)

  apply_payload-On :
      (task : TaskEnvelope) (text : String) (payload : Option Json)
      → Keeps (On P) (apply_payload task text payload)
  apply_payload-On task text none s h = h
  apply_payload-On task text (some payload) s h = go (read_answer payload) refl
    where
      go :
          (r : Result (Option Answer))
          → read_answer payload ≡ r
          → On P (apply_payload task text (some payload) s).1
      go (raise e) g = rw g h
      go (ok none) g = rw g h
      go (ok (some a)) g = rw g (apply_answer-On task a s h)

  pub apply_agent_response-On :
      (loads : String → Option Json) (task : TaskEnvelope) (answer : Option String)
      → Keeps (On P) (apply_agent_response loads task answer)
  unfolding apply_agent_response
  apply_agent_response-On loads task none s h = h
  apply_agent_response-On loads task (some text) s h = elim (Bool-cases (text == "")) [
    | inl e ↦ rw e h
    | inr e ↦ rw e (apply_payload-On task text (loads (strip_code_fence text)) s h)
  ]

apply_answer-task_id :
    (task : TaskEnvelope) (a : Answer) (s : Store) {new : TaskEnvelope} {t : Store}
    → apply_answer task a s ≡ (ok new, t)
    → new.task_id ≡ task.task_id
unfolding apply_answer
apply_answer-task_id task a s h =
    let (ids, u, e, g) = >>=-ok (enqueue_proposals _ (take 8 a.proposals)) _ s h in
    cc (ap (λ p. p.0) g)

apply_payload-task_id :
    (task : TaskEnvelope) (text : String) (payload : Option Json) (s : Store) {new : TaskEnvelope}
    {t : Store}
    → apply_payload task text payload s ≡ (ok new, t)
    → new.task_id ≡ task.task_id
apply_payload-task_id task text none s h = cc (ap (λ p. p.0) h)
apply_payload-task_id task text (some payload) s {new} {t} h = go (read_answer payload) refl
  where
    go : (r : Result (Option Answer)) → read_answer payload ≡ r → new.task_id ≡ task.task_id
    go (raise e) g = absurd (cc (ap (λ p. p.0) (rw g at h)))
    go (ok none) g = cc (ap (λ p. p.0) (rw g at h))
    go (ok (some a)) g = apply_answer-task_id task a s (rw g at h)

pub apply_agent_response-task_id :
    (loads : String → Option Json) (task : TaskEnvelope) (answer : Option String) (s : Store)
    {new : TaskEnvelope} {t : Store}
    → apply_agent_response loads task answer s ≡ (ok new, t)
    → new.task_id ≡ task.task_id
unfolding apply_agent_response
apply_agent_response-task_id loads task none s h = cc (ap (λ p. p.0) h)
apply_agent_response-task_id loads task (some text) s h = elim (Bool-cases (text == "")) [
  | inl e ↦ cc (ap (λ p. p.0) (rw e at h))
  | inr e ↦ apply_payload-task_id task text (loads (strip_code_fence text)) s (rw e at h)
]

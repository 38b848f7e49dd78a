-- ===== src/Coordinator/Routing/Held.antt =====
-- Which messages may become work: an agent's proposal never does by itself, and a promoted one does.
use luis_puentes.Prelude.{
  ℕ, String, ◌≡◌, ◌≢◌, refl, ap, true, false, some, arith, sym, ◌∙◌, Bool-cases, inl, inr,
}
use luis_puentes.Result.{Failure, ok, raise}
use luis_puentes.Models.{
  Json, Fields, bool, default_permissions, TaskEnvelope, MessageEnvelope, MessageStatus, executable,
  get_field, set_field,
}
use luis_puentes.Models.Metadata.{get-set_field}
use luis_puentes.Models.LaneKey.{normalize_lane_key}
use luis_puentes.State.{Store, pure, utcnow, uuid4, append_event}
use luis_puentes.State.Laws.{Result-cases, >>=-ok}
use luis_puentes.State.Lanes.{find_lane}
use luis_puentes.State.Messages.{save_message, upsert_message}
use luis_puentes.Coordinator.{Config, compute_expires_at}
use luis_puentes.Coordinator.Inbox.{
  MessageRequest, inbox_send, promote_found, promoted, is_pending, is_open_lane, dead_letter,
}
use luis_puentes.Coordinator.Inbox.Proposals.{
  accepted, judge_proposal, proposed, fields_of, enqueue_agent_proposal,
}
use luis_puentes.Coordinator.Routing.{dropped, held, routed, route_message, drop_message}

-- A message without the mark is held, if its lane is open, and nothing at all is written.
pub route_message-held :
    (config : Config) (message : MessageEnvelope) (target : String) (s : Store)
    → normalize_lane_key message.target ≡ ok target
    → is_open_lane (find_lane s target) ≡ true
    → executable message ≡ false
    → route_message config message s ≡ (ok held, s)
unfolding route_message
route_message-held config message target s key open_lane plain = ground (arith, key)

drop_message-routed :
    (message : MessageEnvelope) (reason : String) (task : TaskEnvelope) (s t : Store)
    → drop_message message reason s ≢ (ok (routed task), t)
unfolding drop_message
drop_message-routed message reason task s t h =
    let (_, u, _, g) = >>=-ok (dead_letter message reason) (λ _. pure dropped) s h in
    absurd (cc (ap (λ p. p.0) g))

route_message-blank :
    (config : Config) (message : MessageEnvelope) (e : Failure) (s : Store)
    → normalize_lane_key message.target ≡ raise e
    → route_message config message s ≡ drop_message message "invalid_target_lane" s
unfolding route_message
route_message-blank config message e s key = ground (arith, key)

route_message-closed :
    (config : Config) (message : MessageEnvelope) (target : String) (s : Store)
    → normalize_lane_key message.target ≡ ok target
    → is_open_lane (find_lane s target) ≡ false
    → route_message config message s ≡ drop_message message "unknown_target_lane" s
unfolding route_message
route_message-closed config message target s key closed = ground (arith, key)

-- A message becomes a task only if it carries the mark and its lane is there and not retired.
pub route_message-routed :
    (config : Config) (message : MessageEnvelope) (task : TaskEnvelope) (s t : Store)
    → route_message config message s ≡ (ok (routed task), t)
    → (executable message ≡ true)
      × (target : String) × (normalize_lane_key message.target ≡ ok target)
      × (is_open_lane (find_lane s target) ≡ true)
route_message-routed config message task s t h =
    elim (Result-cases (normalize_lane_key message.target)) [
      | inr (e, key) ↦ absurd (
          drop_message-routed message "invalid_target_lane" task s t
            (sym (route_message-blank config message e s key) ∙ h))
      | inl (target, key) ↦ elim (Bool-cases (is_open_lane (find_lane s target))) [
        | inr closed ↦ absurd (
            drop_message-routed message "unknown_target_lane" task s t
              (sym (route_message-closed config message target s key closed) ∙ h))
        | inl open_lane ↦ elim (Bool-cases (executable message)) [
          | inl marked ↦ (marked, target, key, open_lane)
          | inr plain ↦
              let kept = route_message-held config message target s key open_lane plain in
              absurd (cc (ap (λ p. p.0) (sym kept ∙ h)))
        ]
      ]
    ]

-- The message that an accepted proposal leaves in the inbox.
abbrev pub sent_message : MessageRequest → Store → MessageEnvelope
sent_message r s = record {
  message_id = s.fresh s.ids_drawn;
  workspace = s.workspace;
  sender = r.sender;
  target = r.target;
  objective = r.objective;
  status = MessageStatus.pending;
  permissions = r.permissions;
  reply_to = r.reply_to;
  evidence = r.evidence;
  ttl_seconds = r.ttl_seconds;
  created_at = s.now s.clock_reads;
  updated_at = s.now s.clock_reads;
  expires_at = compute_expires_at r.ttl_seconds (s.now s.clock_reads);
  metadata = set_field r.metadata "executable" (bool r.executable);
}

inbox_send_lem :
    (r : MessageRequest) (s : Store)
    → let (result, t) = inbox_send r s in
      (result ≡ ok (sent_message r s))
      × (t.messages ≡ upsert_message (sent_message r s) s.messages)
      × (t.tasks ≡ s.tasks)
      × (t.lanes ≡ s.lanes)
      × (t.workspace ≡ s.workspace)
unfolding inbox_send utcnow uuid4 save_message append_event
inbox_send_lem r s = (refl, refl, refl, refl, refl)

-- A proposal of an agent that is accepted is saved as a message, and makes no task; the message has
-- read access alone, and it is not executable.
pub enqueue_agent_proposal-accepted :
    (task : TaskEnvelope) (proposal : Json) (s : Store) (lane_key objective : String)
    → judge_proposal s proposal ≡ accepted lane_key objective
    → let m = sent_message (proposed task (fields_of proposal) lane_key objective) s in
      let t = (enqueue_agent_proposal task proposal s).1 in
      ((enqueue_agent_proposal task proposal s).0 ≡ ok (some m.message_id))
      × (t.messages ≡ upsert_message m s.messages)
      × (t.tasks ≡ s.tasks)
      × (m.permissions ≡ default_permissions)
      × (executable m ≡ false)
unfolding enqueue_agent_proposal executable
enqueue_agent_proposal-accepted task proposal s lane_key objective judged =
    let r = proposed task (fields_of proposal) lane_key objective in
    let (result, messages, tasks, _, _) = inbox_send_lem r s in
    (
      ground (arith, judged, result),
      ground (arith, judged, messages, result),
      ground (arith, judged, tasks, result),
      refl,
      ground (arith, get-set_field r.metadata "executable" "executable" (bool false)),
    )

promoted-mark :
    (fs : Fields) (actor : String) (now : ℕ)
    → get_field (promoted fs actor now) "executable" ≡ some (bool true)
promoted-mark fs actor now = simp get-set_field

-- Promoting a pending message saves it with the mark that makes it executable, under its id and still
-- pending; on any other message nothing is written.
pub promote_found_lem :
    (message : MessageEnvelope) (actor : String) (s : Store)
    → (is_pending message.status ≡ true
        → (m : MessageEnvelope) × ((promote_found message actor s).0 ≡ ok m)
          × ((promote_found message actor s).1.messages ≡ upsert_message m s.messages)
          × (m.message_id ≡ message.message_id)
          × (m.status ≡ message.status)
          × (executable m ≡ true))
      × (is_pending message.status ≡ false → (promote_found message actor s).1 ≡ s)
unfolding promote_found utcnow uuid4 save_message append_event executable
promote_found_lem message actor s = (
  λ h. (
    record message {
      metadata = promoted message.metadata actor (s.now s.clock_reads);
      updated_at = s.now s.clock_reads;
    },
    ground arith,
    ground arith,
    refl,
    refl,
    ground (arith, promoted-mark message.metadata actor (s.now s.clock_reads)),
  ),
  λ h. ground arith,
)

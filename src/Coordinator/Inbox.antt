-- ===== src/Coordinator/Inbox.antt =====
-- Messages of orchestrator/coordinator.py: sending, promoting, acknowledging and dead-lettering.
pub mod Proposals
use luis_puentes.Prelude.{
  ℕ, String, Bool, true, false, Option, none, some, List, [], ◌∷◌, ◌==◌, ◌||◌, not, ltb, take,
  take_chars, count_chars, if◌then◌else◌, concat,
}
use luis_puentes.Result.{ok, raise, key_error, permission_error}
use luis_puentes.Models.{
  Json, Fields, field, null, bool, num, str, arr, obj, Permissions, default_permissions,
  TaskEnvelope, MessageEnvelope, MessageStatus, LaneRecord, LaneStatus, message_status_value,
  get_field, set_field, truthy,
}
use luis_puentes.Models.Metadata.{to_list}
use luis_puentes.Models.LaneKey.{normalize_lane_key}
use luis_puentes.State.{Store, M, ◌>>=◌, ◌>>◌, pure, throw, gets, utcnow, uuid4, append_event}
use luis_puentes.State.Lanes.{find_lane}
use luis_puentes.State.Messages.{save_message, get_message}
use luis_puentes.Coordinator.{is_sensitive, compute_expires_at}

-- The arguments of `inbox_send`.
pub record MessageRequest : Type 0 where
  pub target : String
  pub objective : String
  pub sender : String
  pub permissions : Permissions
  pub reply_to : Option String
  pub evidence : List String
  pub ttl_seconds : Option ℕ
  pub metadata : Fields
  pub executable : Bool

unfoldable pub inbox_send : MessageRequest → M MessageEnvelope
inbox_send r = do
  now ← utcnow
  message_id ← uuid4
  workspace ← gets (λ s. s.workspace)
  let message : MessageEnvelope = record {
    message_id = message_id;
    workspace = workspace;
    sender = r.sender;
    target = r.target;
    objective = r.objective;
    status = MessageStatus.pending;
    permissions = r.permissions;
    reply_to = r.reply_to;
    evidence = r.evidence;
    ttl_seconds = r.ttl_seconds;
    created_at = now;
    updated_at = now;
    expires_at = compute_expires_at r.ttl_seconds now;
    metadata = set_field r.metadata "executable" (bool r.executable);
  }
  save_message message
  append_event "message.sent" (some "message") (some message_id) Fields.end
  pure message

abbrev pub is_pending : MessageStatus → Bool
is_pending MessageStatus.pending = true
is_pending _ = false

-- The metadata of a message that may become work.
abbrev pub promoted : Fields → String → ℕ → Fields
promoted metadata actor now =
    set_field (set_field (set_field metadata "executable" (bool true)) "promoted_by" (str actor))
      "promoted_at" (num now)

unfoldable pub promote_found : MessageEnvelope → String → M MessageEnvelope
promote_found message actor =
    if not (is_pending message.status)
    then throw (
        permission_error (
          concat (
            "Only pending messages can be promoted; "
            ∷ message.message_id
            ∷ " is "
            ∷ message_status_value message.status
            ∷ [])))
    else do
      now ← utcnow
      let sent : MessageEnvelope = record message {
        metadata = promoted message.metadata actor now;
        updated_at = now;
      }
      save_message sent
      append_event "message.promoted" (some "message") (some message.message_id)
          (field "actor" (str actor) Fields.end)
      pure sent

unfoldable pub promote_message : String → String → M MessageEnvelope
promote_message message_id actor = do
  found ← get_message message_id
  elim found [ none ↦ throw (key_error message_id) | some message ↦ promote_found message actor ]

-- `if note: metadata["acknowledged_note"] = note[:2000]`
abbrev pub with_note : Fields → Option String → Fields
with_note metadata none = metadata
with_note metadata (some note) =
    if note == ""
    then metadata
    else set_field metadata "acknowledged_note" (str (take_chars 2000 note))

unfoldable pub acknowledge_found : MessageEnvelope → String → Option String → M MessageEnvelope
acknowledge_found message actor note = do
  now ← utcnow
  let closed : MessageEnvelope = record message {
    status = MessageStatus.delivered;
    updated_at = now;
    metadata =
        with_note
          (set_field (set_field message.metadata "acknowledged_by" (str actor)) "acknowledged_at"
            (num now))
          note;
  }
  save_message closed
  append_event "message.acknowledged" (some "message") (some message.message_id)
      (field "actor" (str actor) Fields.end)
  pure closed

unfoldable pub acknowledge_message : String → String → Option String → M MessageEnvelope
acknowledge_message message_id actor note = do
  found ← get_message message_id
  elim found [
    | none ↦ throw (key_error message_id)
    | some message ↦ acknowledge_found message actor note
  ]

-- `_dead_letter_message`
unfoldable pub dead_letter : MessageEnvelope → String → M (Unit {0})
dead_letter message reason = do
  now ← utcnow
  save_message (record message {
    status = MessageStatus.dead_letter;
    updated_at = now;
    metadata = set_field message.metadata "dead_letter_reason" (str reason);
  })
  append_event "message.dead_lettered" (some "message") (some message.message_id)
      (field "reason" (str reason) Fields.end)
  pure tt

-- A lane that is there and not retired.
abbrev pub is_open_lane : Option LaneRecord → Bool
is_open_lane none = false
is_open_lane (some lane) = elim lane.status [ LaneStatus.retired ↦ false | _ ↦ true ]

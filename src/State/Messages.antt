-- ===== src/State/Messages.antt =====
-- The message rows of orchestrator/state.py. The primary key is message_id.
use luis_puentes.Prelude.{
  String, Bool, Option, List, [], ◌∷◌, ◌++◌, ◌==◌, ◌&&◌, if◌then◌else◌, leb, first, any, keep,
  update_where, sort_by,
}
use luis_puentes.Result.{ok}
use luis_puentes.Models.{str, MessageEnvelope, MessageStatus, message_status_value, set_field}
use luis_puentes.State.{Store, M, ◌>>=◌, modify, utcnow}

abbrev pub has_id : String → MessageEnvelope → Bool
has_id message_id row = row.message_id == message_id

abbrev pub has_own_id : String → String → MessageEnvelope → Bool
has_own_id workspace message_id row = row.message_id == message_id && row.workspace == workspace

-- The columns that `DO UPDATE SET` names.
unfoldable pub overwrite_message : MessageEnvelope → MessageEnvelope → MessageEnvelope
overwrite_message message row = record row {
  status = message.status;
  updated_at = message.updated_at;
  expires_at = message.expires_at;
  metadata = message.metadata;
}

unfoldable pub upsert_message : MessageEnvelope → List MessageEnvelope → List MessageEnvelope
unfolding overwrite_message
upsert_message message rows =
    if any (has_id message.message_id) rows
    then update_where (has_id message.message_id) (overwrite_message message) rows
    else rows ++ message ∷ []

unfoldable pub save_message : MessageEnvelope → M (Unit {0})
unfolding upsert_message
save_message message = modify (λ s. record s { messages = upsert_message message s.messages })

unfoldable pub get_message : String → M (Option MessageEnvelope)
get_message message_id s = (ok (first (has_own_id s.workspace message_id) s.messages), s)

pub list_messages : MessageStatus → Store → List MessageEnvelope
unfolding message_status_value
list_messages status s =
    sort_by (λ a b. leb a.created_at b.created_at)
      (keep
        (λ m.
          m.workspace == s.workspace
          && message_status_value m.status == message_status_value status)
        s.messages)

-- `json_set(metadata, '$.dead_letter_reason', reason)`
unfoldable pub dead_letter_message : String → String → M (Unit {0})
unfolding utcnow set_field
dead_letter_message message_id reason = do
  now ← utcnow
  modify (λ s. record s {
    messages =
        update_where (has_own_id s.workspace message_id)
          (λ m. record m {
            status = MessageStatus.dead_letter;
            updated_at = now;
            metadata = set_field m.metadata "dead_letter_reason" (str reason);
          })
          s.messages;
  })

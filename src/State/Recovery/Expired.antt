-- ===== src/State/Recovery/Expired.antt =====
-- What `expire_orphans` leaves behind.
use luis_puentes.Prelude.{
  ℕ, suc, String, ◌≡◌, refl, false, some, List, [], ◌∷◌, arith, eq_iff, keep, any, length,
  update_where,
}
use luis_puentes.Prelude.Sweep.{keep-In, Covered, Covered-start, Covered-step, Covered-end}
use luis_puentes.Result.{ok}
use luis_puentes.Models.{TaskEnvelope, TaskStatus, MessageEnvelope, MessageStatus}
use luis_puentes.State.{Store, for_each, utcnow}
use luis_puentes.State.Tasks
use luis_puentes.State.Messages
use luis_puentes.State.Recovery.{
  is_orphan_task, is_orphan_message, expire_task, expire_message, expire_orphans,
}

abbrev task_key : TaskEnvelope → String
task_key t = t.task_id

abbrev message_key : MessageEnvelope → String
message_key m = m.message_id

expire_tasks :
    (w : String) (current : ℕ) (todo : List TaskEnvelope) (s : Store)
    → Covered task_key (is_orphan_task w current) todo s.tasks
    → (tasks : List TaskEnvelope) × (reads : ℕ) × (for_each todo expire_task s
        ≡ (ok tt, record s { tasks = tasks; clock_reads = reads }))
      × (any (is_orphan_task w current) tasks ≡ false)
unfolding for_each expire_task utcnow
expire_tasks w current [] s c =
    (s.tasks, s.clock_reads, refl, Covered-end task_key (is_orphan_task w current) s.tasks c)
expire_tasks w current (x ∷ todo) s c =
    let fix : TaskEnvelope → TaskEnvelope =
      λ t. record t { status = TaskStatus.expired; updated_at = s.now s.clock_reads } in
    let s1 : Store = record s {
      tasks = update_where (Tasks.has_id x.task_id) fix s.tasks;
      clock_reads = suc s.clock_reads;
    } in
    let (tasks, reads, e, none_left) = expire_tasks w current todo s1 (
      Covered-step task_key (is_orphan_task w current) x todo s.tasks (Tasks.has_id x.task_id) fix
        (λ r b i. ground (arith, eq_iff r.task_id x.task_id)) (λ r. ground arith) c) in
    (tasks, reads, e, none_left)

expire_messages :
    (w : String) (current : ℕ) (todo : List MessageEnvelope) (s : Store)
    → Covered message_key (is_orphan_message w current) todo s.messages
    → (messages : List MessageEnvelope) × (reads : ℕ) × (for_each todo expire_message s
        ≡ (ok tt, record s { messages = messages; clock_reads = reads }))
      × (any (is_orphan_message w current) messages ≡ false)
unfolding for_each expire_message utcnow
expire_messages w current [] s c = (
  s.messages,
  s.clock_reads,
  refl,
  Covered-end message_key (is_orphan_message w current) s.messages c,
)
expire_messages w current (x ∷ todo) s c =
    let fix : MessageEnvelope → MessageEnvelope =
      λ t. record t { status = MessageStatus.expired; updated_at = s.now s.clock_reads } in
    let s1 : Store = record s {
      messages = update_where (Messages.has_id x.message_id) fix s.messages;
      clock_reads = suc s.clock_reads;
    } in
    let (messages, reads, e, none_left) = expire_messages w current todo s1 (
      Covered-step message_key (is_orphan_message w current) x todo s.messages
        (Messages.has_id x.message_id) fix
        (λ r b i. ground (arith, eq_iff r.message_id x.message_id)) (λ r. ground arith) c) in
    (messages, reads, e, none_left)

-- The sweep for a given time succeeds with the numbers of waiting tasks and pending messages of the
-- workspace that were past it, and afterwards there is no such task and no such message.
pub expire_orphans-done :
    (current : ℕ) (s : Store)
    → let (result, t) = expire_orphans (some current) s in
      (result
        ≡ ok (
          length (keep (is_orphan_task s.workspace current) s.tasks),
          length (keep (is_orphan_message s.workspace current) s.messages),
        ))
      × (any (is_orphan_task s.workspace current) t.tasks ≡ false)
      × (any (is_orphan_message s.workspace current) t.messages ≡ false)
unfolding expire_orphans
expire_orphans-done current s =
    let (tasks, reads, e, f) =
      expire_tasks s.workspace current (keep (is_orphan_task s.workspace current) s.tasks) s (
        Covered-start task_key (is_orphan_task s.workspace current) _ s.tasks
          (λ r m h. keep-In (is_orphan_task s.workspace current) r s.tasks m h)) in
    let s1 : Store = record s { tasks = tasks; clock_reads = reads } in
    let (messages, reads2, g, k) =
      expire_messages s.workspace current (keep (is_orphan_message s.workspace current) s.messages)
        s1
        (Covered-start message_key (is_orphan_message s.workspace current) _ s.messages
          (λ r m h. keep-In (is_orphan_message s.workspace current) r s.messages m h)) in
    (ground (arith, e, g), ground (arith, e, g, f), ground (arith, e, g, k))

-- ===== src/Coordinator/Submission.antt =====
-- What `submit_task` and `delegate_task` promise.
use luis_puentes.Prelude.{
  ℕ, suc, String, ◌≡◌, ◌≢◌, ◌∙◌, true, false, Option, none, some, List, [], ◌∷◌, ◌++◌, ◌==◌, ◌&&◌,
  ◌||◌, arith, eq_refl, str_eq-false, first, any, first-append_none, first-none, Option-cases,
  Bool-cases, inl, inr,
}
use luis_puentes.Result.{ok, raise, permission_error}
use luis_puentes.Models.{TaskEnvelope, TaskStatus, LaneRecord}
use luis_puentes.Models.Metadata.{int_field}
use luis_puentes.Models.LaneKey.{normalize_lane_key}
use luis_puentes.Models.LaneKey.Words.{normalize_lane_key_idem}
use luis_puentes.State.{Store, utcnow, uuid4, append_event, record_metric}
use luis_puentes.State.Lanes.{
  find_lane, get_lane, create_lane, new_lane, upsert_rows, upsert_lane, ensure_lane,
  export_lane_registry,
}
use luis_puentes.State.Tasks.{has_id, has_idempotency, repeats_key, get_task_by_idempotency}
use luis_puentes.State.Tasks.Saved.{save_task-added}
use luis_puentes.Coordinator.{
  Config, is_read_only, is_sensitive, TaskRequest, compute_expires_at, find_existing, create_task,
  submit_task, delegate_from,
}

-- The task that `submit_task` makes.
abbrev pub new_task : TaskRequest → String → Store → TaskEnvelope
new_task r lane_key s = record {
  task_id = s.fresh s.ids_drawn;
  workspace = s.workspace;
  lane_key = lane_key;
  objective = r.objective;
  sender = r.sender;
  target = r.target;
  status = TaskStatus.queued;
  permissions = r.permissions;
  idempotency_key = r.idempotency_key;
  reply_to = r.reply_to;
  evidence = r.evidence;
  artifacts = r.artifacts;
  spec_id = r.spec_id;
  ttl_seconds = r.ttl_seconds;
  created_at = s.now s.clock_reads;
  updated_at = s.now s.clock_reads;
  expires_at = compute_expires_at r.ttl_seconds (s.now s.clock_reads);
  agent_id = none;
  run_id = none;
  failure_kind = none;
  error_message = none;
  metadata = r.metadata;
}

-- `ensure_lane` on a normalized key writes to the lanes and reads the clock, at most.
ensure_lane_lem :
    (n : String) (owner model : Option String) (s : Store)
    → normalize_lane_key n ≡ ok n
    → (lane : LaneRecord) × (lanes : List LaneRecord) × (reads : ℕ) × (ensure_lane n owner model s
        ≡ (ok lane, record s { lanes = lanes; clock_reads = reads }))
unfolding ensure_lane get_lane create_lane upsert_lane utcnow
ensure_lane_lem n owner model s key = elim (Option-cases (find_lane s n)) [
  | inl e ↦ (
    new_lane s.workspace n owner model (s.now s.clock_reads),
    upsert_rows (new_lane s.workspace n owner model (s.now s.clock_reads)) s.lanes,
    suc s.clock_reads,
    ground (arith, key, e),
  )
  | inr (lane, e) ↦ (lane, s.lanes, s.clock_reads, ground (arith, key, e))
]

-- The tail of `submit_task`, below the saving: it adds no task.
create_task_lem :
    (r : TaskRequest) (n : String) (s : Store)
    → normalize_lane_key r.lane_key ≡ ok n
    → any (has_id (s.fresh s.ids_drawn)) s.tasks ≡ false
    → repeats_key (new_task r n s) s.tasks ≡ false
    → ((create_task r s).0 ≡ ok (new_task r n s))
      × ((create_task r s).1.tasks ≡ s.tasks ++ new_task r n s ∷ [])
      × ((create_task r s).1.workspace ≡ s.workspace)
unfolding create_task utcnow uuid4 export_lane_registry append_event record_metric
create_task_lem r n s key new unseen =
    let again = normalize_lane_key_idem r.lane_key n key in
    let s1 : Store = record s { clock_reads = suc s.clock_reads; ids_drawn = suc s.ids_drawn } in
    let (lane, lanes, reads, ensured) = ensure_lane_lem n none none s1 again in
    let s2 : Store = record s1 { lanes = lanes; clock_reads = reads } in
    let saved = save_task-added (new_task r n s) n s2 again new unseen in
    (
      ground (arith, key, ensured, saved),
      ground (arith, key, ensured, saved),
      ground (arith, key, ensured, saved),
    )

-- The mode lets the request through.
abbrev pub Admits : Config → TaskRequest → Type 0
Admits config r = (is_read_only config.mode && is_sensitive r.permissions) ≡ false

find_existing-key :
    (k : String) (s : Store)
    → k ≢ ""
    → find_existing (some k) s ≡ (ok (first (has_idempotency s.workspace k) s.tasks), s)
unfolding find_existing get_task_by_idempotency
find_existing-key k s h = rw (str_eq-false k "" h)

submit_task-new :
    (config : Config) (r : TaskRequest) (k n : String) (s : Store)
    → Admits config r
    → r.idempotency_key ≡ some k
    → k ≢ ""
    → any (has_idempotency s.workspace k) s.tasks ≡ false
    → submit_task config r s ≡ create_task r s
unfolding submit_task
submit_task-new config r k n s admitted key ne unseen =
    ground
      (arith, find_existing-key k s ne, first-none (has_idempotency s.workspace k) s.tasks unseen)

submit_task-seen :
    (config : Config) (r : TaskRequest) (k : String) (s : Store) (task : TaskEnvelope)
    → Admits config r
    → r.idempotency_key ≡ some k
    → k ≢ ""
    → first (has_idempotency s.workspace k) s.tasks ≡ some task
    → submit_task config r s ≡ (ok task, s)
unfolding submit_task
submit_task-seen config r k s task admitted key ne seen = ground (arith, find_existing-key k s ne)

new_task-seen :
    (r : TaskRequest) (k n : String) (s : Store)
    → r.idempotency_key ≡ some k
    → has_idempotency s.workspace k (new_task r n s) ≡ true
new_task-seen r k n s key = ground (arith, eq_refl s.workspace, eq_refl k)

-- Where the mode admits the requests, a request for a lane key that can be normalized, with an
-- idempotency key that is not empty and that the workspace has not seen, and with an id that is new,
-- makes one task. Any later request with that key, whatever else it asks for, gets the same task back,
-- and changes nothing.
pub submit_task-once :
    (config : Config) (r again : TaskRequest) (k n : String) (s : Store)
    → Admits config r
    → Admits config again
    → r.idempotency_key ≡ some k
    → again.idempotency_key ≡ some k
    → k ≢ ""
    → any (has_idempotency s.workspace k) s.tasks ≡ false
    → any (has_id (s.fresh s.ids_drawn)) s.tasks ≡ false
    → normalize_lane_key r.lane_key ≡ ok n
    → let t = (submit_task config r s).1 in
      ((submit_task config r s).0 ≡ ok (new_task r n s))
      × (t.tasks ≡ s.tasks ++ new_task r n s ∷ [])
      × (submit_task config again t ≡ (ok (new_task r n s), t))
submit_task-once config r again k n s admits_r admits_a key_r key_a ne unseen new norm =
    let made = submit_task-new config r k n s admits_r key_r ne unseen in
    let (result, tasks, home) = create_task_lem r n s norm new (ground (arith, unseen, key_r)) in
    rw made (
      result,
      tasks,
      submit_task-seen config again k (create_task r s).1 (new_task r n s) admits_a key_a ne (
          rw (home, tasks)
            (first-append_none (has_idempotency s.workspace k) s.tasks (new_task r n s ∷ []) unseen
              ∙ rw (new_task-seen r k n s key_r))),
    )

-- A task whose depth of delegation is 1 or more cannot delegate in its turn: the call raises
-- PermissionError, and nothing is written.
pub delegate_from-child :
    (config : Config) (parent : TaskEnvelope) (depth : ℕ) (task_type objective : String)
    (lane_key : Option String) (s : Store)
    → int_field parent.metadata "delegation_depth" ≡ ok (suc depth)
    → (reason : String) × (delegate_from config parent task_type objective lane_key s
        ≡ (raise (permission_error reason), s))
unfolding delegate_from
delegate_from-child config parent depth task_type objective lane_key s h =
    elim (Bool-cases (task_type == "extraction" || task_type == "review")) [
      | inl valid ↦ ("Recursive delegation is prohibited", ground (arith, h))
      | inr other ↦ ("Delegation is limited to extraction and review", ground (arith, h))
    ]

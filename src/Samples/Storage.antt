-- ===== src/Samples/Storage.antt =====
-- Claims, recovery and rows on the sample workspace.
use luis_puentes.Prelude.{
  List, ◌≤◌, ◌≡◌, refl, true, false, none, some, [], ◌∷◌, ◌++◌, any, count, All, keep, length,
}
use luis_puentes.Result.{ok, raise, integrity_error}
use luis_puentes.Models.{
  ArtifactClaim, Fields, field, str, get_field, set_field, pop_field, task_status_value, TaskStatus,
}
use luis_puentes.Models.LaneKey.{normalize_lane_key}
use luis_puentes.State.{Store, for_each, utcnow, uuid4, Registry}
use luis_puentes.Models.Metadata.{int_field, int_of}
use luis_puentes.State.Claims.{is_write_lock, respects_index, write_claim, list_active_claims}
use luis_puentes.State.Tasks.{list_tasks}
use luis_puentes.State.Recovery.{
  recover_interrupted_tasks, recover_rows, recover_task, is_orphan_task, is_orphan_message,
  expire_orphans,
}
use luis_puentes.State.Recovery.Interrupted.{is_interrupted, recover_interrupted_tasks-done}
use luis_puentes.Locks.{acquire, is_held, release, is_stale, recover_stale}
use luis_puentes.Locks.Acquire.{new_claim, acquire-again, acquire-free}
use luis_puentes.State.Lanes.{list_lanes, export_lane_registry}
use luis_puentes.State.Lanes.Exported.{HasNoSecret, export_lane_registry-HasNoSecret}
use luis_puentes.State.Recovery.Expired.{expire_orphans-done}
use luis_puentes.Locks.Calls.{acquiring, releasing, recovering, after_calls, after_calls-count}
use luis_puentes.Locks.Release.{is_holding, release-done}
use luis_puentes.Locks.Stale.{AreClosed, is_left, recover_stale-done}
use luis_puentes.Samples.{lane_named, sample_store, sample_task, held_claim}

acquire-again_example :
    let (result, t) = acquire "ledger.xlsx" "ops" "service" none true none sample_store in
    (result ≡ raise integrity_error) × (t.claims ≡ held_claim ∷ [])
unfolding write_claim is_write_lock
acquire-again_example =
    acquire-again "ledger.xlsx" "ops" "service" none none sample_store held_claim refl refl refl

acquire-free_example :
    let claim = new_claim sample_store "notes.md" "audit" "service" none true none in
    let (result, t) = acquire "notes.md" "audit" "service" none true none sample_store in
    (result ≡ ok claim)
    × (t.claims ≡ sample_store.claims ++ claim ∷ [])
    × (write_claim t "notes.md" ≡ some claim)
unfolding write_claim is_write_lock respects_index normalize_lane_key
acquire-free_example =
    acquire-free "notes.md" "audit" "audit" "service" none none sample_store refl refl refl refl

recover_interrupted_tasks-done_example :
    any
      (is_interrupted "/work" (some "new-service"))
      (recover_interrupted_tasks (some "new-service") sample_store).1.tasks
    ≡ false
unfolding recover_interrupted_tasks recover_rows recover_task utcnow uuid4 int_field int_of
    get_field set_field pop_field list_tasks task_status_value for_each
recover_interrupted_tasks-done_example =
    recover_interrupted_tasks-done (some "new-service") sample_store
      (recover_interrupted_tasks (some "new-service") sample_store).1 ("task-1" ∷ []) refl

after_calls-count_example :
    count
      (is_write_lock "/work" "ledger.xlsx")
      (after_calls
        (acquiring "ledger.xlsx" "audit" "service" none true none
          ∷ releasing "ledger.xlsx" "ops"
          ∷ acquiring "ledger.xlsx" "audit" "service" none true none
          ∷ recovering none
          ∷ [])
        sample_store).claims
    ≤ 1
unfolding is_write_lock respects_index
after_calls-count_example =
    after_calls-count
      (acquiring "ledger.xlsx" "audit" "service" none true none
        ∷ releasing "ledger.xlsx" "ops"
        ∷ acquiring "ledger.xlsx" "audit" "service" none true none
        ∷ recovering none
        ∷ [])
      sample_store "/work" "ledger.xlsx" refl

release-done_example :
    ((release "ledger.xlsx" "ops" sample_store).0
      ≡ ok (any (is_held "ledger.xlsx" "ops") (list_active_claims sample_store)))
    × (any
          (is_holding "/work" "ledger.xlsx" "ops")
          (release "ledger.xlsx" "ops" sample_store).1.claims
        ≡ false)
unfolding is_write_lock respects_index normalize_lane_key
release-done_example = release-done "ledger.xlsx" "ops" "ops" sample_store refl refl

-- The sample workspace with a queued task that expired at 10.
abbrev late_store : Store
late_store = record sample_store {
  tasks = record sample_task { status = TaskStatus.queued; expires_at = some 10 } ∷ [];
}

expire_orphans-done_example :
    let (result, t) = expire_orphans (some 11) late_store in
    (result
      ≡ ok (
        length (keep (is_orphan_task "/work" 11) late_store.tasks),
        length (keep (is_orphan_message "/work" 11) late_store.messages),
      ))
    × (any (is_orphan_task "/work" 11) t.tasks ≡ false)
    × (any (is_orphan_message "/work" 11) t.messages ≡ false)
expire_orphans-done_example = expire_orphans-done 11 late_store

-- The sample workspace with a key in the configuration of its lane.
abbrev keyed_store : Store
keyed_store = record sample_store {
  lanes = record (lane_named "ops") { config = field "api_key" (str "k") Fields.end } ∷ [];
}

export_lane_registry-HasNoSecret_example :
    (registry : Registry) × ((export_lane_registry keyed_store).1.registry ≡ some registry)
    × (length registry.lanes ≡ length (list_lanes keyed_store))
    × All HasNoSecret registry.lanes
export_lane_registry-HasNoSecret_example = export_lane_registry-HasNoSecret keyed_store

-- The sample workspace with a claim that is past its time at 10.
abbrev stale_store : Store
stale_store = record sample_store { claims = record held_claim { expires_at = some 10 } ∷ [] }

recover_stale-done_example :
    let (result, t) = recover_stale (some 11) stale_store in
    ((recovered : List ArtifactClaim) × (result ≡ ok recovered)
      × AreClosed (keep (is_stale 11) (list_active_claims stale_store)) recovered)
    × (any (is_left "/work" 11) t.claims ≡ false)
unfolding is_write_lock respects_index normalize_lane_key list_active_claims
recover_stale-done_example = recover_stale-done 11 stale_store refl (("ops", refl), tt)

-- ===== src/Rotation.antt =====
-- orchestrator/rotation.py: when a lane's agent is replaced, and the counters in `lane.config` that say
-- so. Scores are in hundredths, times in microseconds, and the size of the envelope's JSON is given.
pub mod Counters
pub mod Startup
use luis_puentes.Prelude.{
  ℕ, ◌+◌, ◌*◌, String, Bool, true, false, Option, none, some, List, [], ◌∷◌, ◌++◌, ◌==◌, ◌&&◌, not,
  leb, take_chars, if◌then◌else◌,
}
use luis_puentes.Result.{Result, ok, raise, type_error}
use luis_puentes.Models.{
  Json, Fields, field, null, num, str, obj, truthy, LaneRecord, TaskEnvelope, get_field, set_field,
  pop_field,
}
use luis_puentes.Models.Metadata.{int_of, int_field, dict_field}

infixl 5 ◌>>=◌
abbrev pub ◌>>=◌ {ℓ κ} : {A : Type ℓ} {B : Type κ} → Result A → (A → Result B) → Result B
ok a >>= f = f a
raise e >>= f = raise e

pub record RotationDecision : Type 0 where
  pub rotate : Bool
  pub reasons : List String

pub record RotationPolicy : Type 0 where
  pub max_runs : ℕ
  pub max_active_seconds : ℕ
  pub min_health : ℕ
  pub max_envelope_bytes : ℕ
  pub max_corrections : ℕ
  pub max_task_boundaries : ℕ
  pub max_startup_failures : ℕ

-- `RotationPolicy()`
abbrev pub default_policy : RotationPolicy
default_policy = record {
  max_runs = 8;
  max_active_seconds = 14400;
  min_health = 45;
  max_envelope_bytes = 24000;
  max_corrections = 2;
  max_task_boundaries = 5;
  max_startup_failures = 2;
}

-- `dict(lane.config.get("rotation", {}))`
unfoldable pub counters : LaneRecord → Result Fields
counters lane = dict_field lane.config "rotation"

-- `lane.config["rotation"] = counters`
unfoldable pub set_counters : LaneRecord → Fields → LaneRecord
set_counters lane fs = record lane { config = set_field lane.config "rotation" (obj fs) }

-- `(current - active_since).total_seconds() >= max_active_seconds`, for a lane that has the time
unfoldable pub is_aged : RotationPolicy → Option Json → ℕ → Result Bool
is_aged policy none current = ok false
is_aged policy (some (num since)) current =
    ok (leb (since + policy.max_active_seconds * 1000000) current)
is_aged policy (some value) current = if truthy value then raise type_error else ok false

-- `prior_spec and task.spec_id and prior_spec != task.spec_id`
unfoldable pub is_shifted : Option Json → Option String → Bool
is_shifted (some (str prior)) (some spec) =
    not (prior == "") && not (spec == "") && not (prior == spec)
is_shifted (some value) (some spec) = truthy value && not (spec == "")
is_shifted _ _ = false

abbrev pub reason_if : Bool → String → List String
reason_if true reason = reason ∷ []
reason_if false reason = []

abbrev pub is_some_reason : List String → Bool
is_some_reason [] = false
is_some_reason (r ∷ rs) = true

-- The decision from what the counters say.
unfoldable pub judge : RotationPolicy → ℕ → ℕ → ℕ → Bool → ℕ → ℕ → Bool → RotationDecision
judge policy score envelope_bytes runs aged corrections boundaries shifted =
    let reasons =
      reason_if (leb policy.max_runs runs) "run_count"
      ++ (reason_if aged "active_age"
          ++ (reason_if (leb score policy.min_health) "context_health"
              ++ (reason_if (leb policy.max_envelope_bytes envelope_bytes) "envelope_size"
                  ++ (reason_if (leb policy.max_corrections corrections) "repeated_correction"
                      ++ (reason_if (leb policy.max_task_boundaries boundaries) "task_boundary"
                          ++ reason_if shifted "workstream_shift"))))) in
    record { rotate = is_some_reason reasons; reasons = reasons }

unfoldable pub evaluate :
    RotationPolicy → LaneRecord → TaskEnvelope → ℕ → ℕ → Result RotationDecision
evaluate policy lane task envelope_bytes now = do
  fs ← counters lane
  runs ← int_field fs "run_count"
  aged ← is_aged policy (get_field fs "active_since") now
  correction_count ← int_field fs "correction_count"
  boundaries ← int_field fs "task_boundary_count"
  ok (
      judge policy lane.context_health_score envelope_bytes runs aged correction_count boundaries
        (is_shifted (get_field fs "last_spec_id") task.spec_id))

abbrev pub opt_str : Option String → Json
opt_str none = null
opt_str (some s) = str s

abbrev pub time_or : Option ℕ → ℕ → ℕ
time_or none t = t
time_or (some since) t = since

-- `counters.setdefault(key, value)`
abbrev pub set_default : Fields → String → Json → Fields
set_default fs key value = elim (get_field fs key) [ none ↦ set_field fs key value | some v ↦ fs ]

-- `int(task.metadata.get("correction_count", counters.get("correction_count", 0)))`
unfoldable pub corrections : TaskEnvelope → Fields → Result ℕ
corrections task fs = elim (get_field task.metadata "correction_count") [
  | none ↦ int_field fs "correction_count"
  | some v ↦ int_of v
]

unfoldable pub record_task_start : LaneRecord → TaskEnvelope → ℕ → Result LaneRecord
unfolding counters set_counters corrections
record_task_start lane task envelope_bytes = do
  fs ← counters lane
  let started = set_default fs "active_since" (num (time_or lane.last_activity task.created_at))
  let by_spec = set_field started "last_spec_id" (opt_str task.spec_id)
  let by_objective = set_field by_spec "last_objective" (str task.objective)
  let by_size = set_field by_objective "last_envelope_bytes" (num envelope_bytes)
  n ← corrections task by_size
  ok (set_counters lane (set_field by_size "correction_count" (num n)))

-- The lane with the failure counted, and the new count.
unfoldable pub record_startup_failure : LaneRecord → String → Result (LaneRecord × ℕ)
record_startup_failure lane error = do
  fs ← counters lane
  n ← int_field fs "startup_failure_count"
  let counted = set_field fs "startup_failure_count" (num (n + 1))
  ok (
    set_counters lane (set_field counted "last_startup_error" (str (take_chars 2000 error))),
    n + 1,
  )

unfoldable pub clear_startup_failures : LaneRecord → Result LaneRecord
clear_startup_failures lane = do
  fs ← counters lane
  ok (set_counters lane (pop_field (pop_field fs "startup_failure_count") "last_startup_error"))

unfoldable pub record_task_end : LaneRecord → Result LaneRecord
record_task_end lane = do
  fs ← counters lane
  runs ← int_field fs "run_count"
  boundaries ← int_field fs "task_boundary_count"
  ok (
      set_counters lane (
        set_field (set_field fs "run_count" (num (runs + 1))) "task_boundary_count"
          (num (boundaries + 1))))

unfoldable pub reset : LaneRecord → ℕ → LaneRecord
reset lane now = set_counters lane (
    field "run_count" (num 0) (
      field "task_boundary_count" (num 0) (
        field "correction_count" (num 0) (
          field "active_since" (num now) (
            field "last_spec_id" null
              (field "last_objective" null (field "last_envelope_bytes" (num 0) Fields.end)))))))

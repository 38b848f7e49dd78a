-- ===== src/Rotation/Counters.antt =====
-- What the counters of a lane come to over resets and finished tasks.
use luis_puentes.Prelude.{
  ℕ, zero, suc, ◌+◌, ◌*◌, String, ◌≡◌, refl, Bool, true, false, none, some, arith, subst, leb, ◌||◌,
  List, ◌++◌,
}
use luis_puentes.Result.{Result, ok}
use luis_puentes.Models.{Fields, num, null, obj, LaneRecord, TaskEnvelope, get_field, set_field}
use luis_puentes.Models.Metadata.{get-set_field, int_of, int_field, dict_of, dict_field}
use luis_puentes.Rotation.{
  is_some_reason, reason_if, judge, ◌>>=◌, RotationDecision, RotationPolicy, counters, set_counters,
  is_aged, is_shifted, evaluate, record_task_end, reset,
}

pub counters-set_counters :
    (lane : LaneRecord) (fs : Fields) → counters (set_counters lane fs) ≡ ok fs
unfolding counters set_counters dict_field dict_of
counters-set_counters lane fs =
    ground (arith, get-set_field lane.config "rotation" "rotation" (obj fs))

-- A number that a counter holds.
pub int_field-num :
    (fs : Fields) (k : String) (n : ℕ) → get_field fs k ≡ some (num n) → int_field fs k ≡ ok n
unfolding int_field int_of
int_field-num fs k n h = ground arith

-- The counters of a lane since its last reset at `since`, after `k` finished tasks.
pub record HasRun (lane : LaneRecord) (since k : ℕ) : Type 0 where
  pub fields : Fields
  pub holds : counters lane ≡ ok fields
  pub runs : get_field fields "run_count" ≡ some (num k)
  pub boundaries : get_field fields "task_boundary_count" ≡ some (num k)
  pub corrections : get_field fields "correction_count" ≡ some (num 0)
  pub since_field : get_field fields "active_since" ≡ some (num since)
  pub spec : get_field fields "last_spec_id" ≡ some null

reset-HasRun : (lane : LaneRecord) (now : ℕ) → HasRun (reset lane now) now 0
unfolding reset get_field
reset-HasRun lane now = record {
  fields = _;
  holds = counters-set_counters lane _;
  runs = refl;
  boundaries = refl;
  corrections = refl;
  since_field = refl;
  spec = refl;
}

-- `record_task_end`, k times
pub ends : ℕ → LaneRecord → Result LaneRecord
ends zero lane = ok lane
ends (suc k) lane = ends k lane >>= record_task_end

pub int_field-cong :
    (fs gs : Fields) (k : String)
    → get_field fs k ≡ get_field gs k
    → int_field fs k ≡ int_field gs k
unfolding int_field
int_field-cong fs gs k h = ground arith

pub int_field-none : (fs : Fields) (k : String) → get_field fs k ≡ none → int_field fs k ≡ ok 0
unfolding int_field
int_field-none fs k h = ground arith

-- The counters as `record_task_end` leaves them.
abbrev ended : Fields → ℕ → Fields
ended fs k = set_field (set_field fs "run_count" (num (k + 1))) "task_boundary_count" (num (k + 1))

record_task_end_lem :
    (lane : LaneRecord) (since k : ℕ) (h : HasRun lane since k)
    → record_task_end lane ≡ ok (set_counters lane (ended h.fields k))
unfolding record_task_end
record_task_end_lem lane since k h = ground (
  arith,
  h.holds,
  int_field-num h.fields "run_count" k h.runs,
  int_field-num h.fields "task_boundary_count" k h.boundaries,
)

record_task_end-HasRun :
    (lane : LaneRecord) (since k : ℕ) (h : HasRun lane since k)
    → HasRun (set_counters lane (ended h.fields k)) since (k + 1)
record_task_end-HasRun lane since k h = record {
  fields = ended h.fields k;
  holds = counters-set_counters lane (ended h.fields k);
  runs = simp get-set_field;
  boundaries = simp get-set_field;
  corrections = simp get-set_field h.corrections;
  since_field = simp get-set_field h.since_field;
  spec = simp get-set_field h.spec;
}

ends-HasRun :
    (k : ℕ) (lane : LaneRecord) (now : ℕ)
    → (l : LaneRecord) × (ends k (reset lane now) ≡ ok l) × HasRun l now k
unfolding ends
ends-HasRun zero lane now = (reset lane now, refl, reset-HasRun lane now)
ends-HasRun (suc k) lane now =
    let (l, e, h) = ends-HasRun k lane now in
    (
      set_counters l (ended h.fields k),
      rw e (record_task_end_lem l now k h),
      subst (HasRun _ now) (omega arith) (record_task_end-HasRun l now k h),
    )

-- Whether a lane is due for a new agent, from the tasks and the time since its reset.
abbrev pub is_due : RotationPolicy → LaneRecord → ℕ → ℕ → ℕ → ℕ → Bool
is_due policy lane since k envelope_bytes now =
    leb policy.max_runs k
    || leb (since + policy.max_active_seconds * 1000000) now
    || leb lane.context_health_score policy.min_health
    || leb policy.max_envelope_bytes envelope_bytes
    || leb policy.max_corrections 0
    || leb policy.max_task_boundaries k

is_some_reason-if :
    (b : Bool) (r : String) (rs : List String)
    → is_some_reason (reason_if b r ++ rs) ≡ (b || is_some_reason rs)
is_some_reason-if true r rs = refl
is_some_reason-if false r rs = refl

is_some_reason-last : (b : Bool) (r : String) → is_some_reason (reason_if b r) ≡ b
is_some_reason-last true r = refl
is_some_reason-last false r = refl

-- A rotation is decided exactly if one of the seven tests passes.
judge-rotate :
    (policy : RotationPolicy) (score size runs : ℕ) (aged : Bool) (corrections boundaries : ℕ)
    (shifted : Bool)
    → (judge policy score size runs aged corrections boundaries shifted).rotate ≡ (
        leb policy.max_runs runs
        || (aged
            || (leb score policy.min_health
                || (leb policy.max_envelope_bytes size
                    || (leb policy.max_corrections corrections
                        || (leb policy.max_task_boundaries boundaries || shifted))))))
unfolding judge
judge-rotate policy score size runs aged corrections boundaries shifted =
    simp (is_some_reason-if, is_some_reason-last)

evaluate-HasRun :
    (policy : RotationPolicy) (lane : LaneRecord) (task : TaskEnvelope) (since k size now : ℕ)
    → (h : HasRun lane since k)
    → evaluate policy lane task size now
      ≡ ok (
          judge policy lane.context_health_score size k
            (leb (since + policy.max_active_seconds * 1000000) now)
            0
            k
            false)
unfolding evaluate is_aged is_shifted
evaluate-HasRun policy lane task since k size now h = ground (
  arith,
  h.holds,
  h.spec,
  h.since_field,
  int_field-num h.fields "run_count" k h.runs,
  int_field-num h.fields "correction_count" 0 h.corrections,
  int_field-num h.fields "task_boundary_count" k h.boundaries,
)

-- After a reset and k calls of record_task_end, with no call of record_task_start between, the policy
-- evaluates, and it asks for a new agent exactly if k has
-- reached the limit of runs or of task boundaries, or the lane is too old, its health too low, the
-- envelope too large, or no correction is allowed at all.
pub evaluate-ends :
    (policy : RotationPolicy) (lane : LaneRecord) (task : TaskEnvelope) (since k size now : ℕ)
    → (l : LaneRecord) × (d : RotationDecision) × (ends k (reset lane since) ≡ ok l)
      × (evaluate policy l task size now ≡ ok d)
      × (d.rotate ≡ is_due policy l since k size now)
evaluate-ends policy lane task since k size now =
    let (l, e, h) = ends-HasRun k lane since in
    (
      l,
      _,
      e,
      evaluate-HasRun policy l task since k size now h,
      ground (
        arith,
        judge-rotate policy l.context_health_score size k
            (leb (since + policy.max_active_seconds * 1000000) now) 0 k false,
      ),
    )

-- ===== src/Rotation/Startup.antt =====
-- The count of failures to start that a lane keeps.
use luis_puentes.Prelude.{ℕ, ◌+◌, String, ◌≡◌, arith, take_chars}
use luis_puentes.Result.{ok}
use luis_puentes.Models.{Fields, num, str, LaneRecord, set_field, pop_field}
use luis_puentes.Models.Metadata.{get-set_field, get-pop_field, int_field}
use luis_puentes.Rotation.{counters, record_startup_failure, clear_startup_failures}
use luis_puentes.Rotation.Counters.{
  counters-set_counters, int_field-num, int_field-cong, int_field-none,
}

abbrev failed : Fields → ℕ → String → Fields
failed fs n error =
    set_field (set_field fs "startup_failure_count" (num (n + 1))) "last_startup_error"
      (str (take_chars 2000 error))

-- A failure to start is counted on top of those before it, and the count of runs stays.
pub record_startup_failure_lem :
    (lane : LaneRecord) (error : String) (fs : Fields) (n : ℕ)
    → counters lane ≡ ok fs
    → int_field fs "startup_failure_count" ≡ ok n
    → (l : LaneRecord) × (gs : Fields) × (record_startup_failure lane error ≡ ok (l, n + 1))
      × (counters l ≡ ok gs)
      × (int_field gs "startup_failure_count" ≡ ok (n + 1))
      × (int_field gs "run_count" ≡ int_field fs "run_count")
unfolding record_startup_failure
record_startup_failure_lem lane error fs n hc hn = (
  _,
  failed fs n error,
  ground (arith, hc, hn),
  counters-set_counters lane (failed fs n error),
  int_field-num _ _ (n + 1) (simp get-set_field),
  int_field-cong _ _ "run_count" (simp get-set_field),
)

-- Cleared, the count starts from nothing again.
pub clear_startup_failures_lem :
    (lane : LaneRecord) (fs : Fields)
    → counters lane ≡ ok fs
    → (l : LaneRecord) × (gs : Fields) × (clear_startup_failures lane ≡ ok l)
      × (counters l ≡ ok gs)
      × (int_field gs "startup_failure_count" ≡ ok 0)
      × (int_field gs "run_count" ≡ int_field fs "run_count")
unfolding clear_startup_failures
clear_startup_failures_lem lane fs hc = (
  _,
  pop_field (pop_field fs "startup_failure_count") "last_startup_error",
  ground (arith, hc),
  counters-set_counters lane _,
  int_field-none _ _ (simp get-pop_field),
  int_field-cong _ _ "run_count" (simp get-pop_field),
)

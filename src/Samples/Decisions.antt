-- ===== src/Samples/Decisions.antt =====
-- Lane keys, policies and rotation on the sample workspace.
use luis_puentes.Prelude.{String, ◌≡◌, ◌≢◌, refl, true, List, [], ◌∷◌, All, not, ◌==◌, ◌&&◌}
use luis_puentes.Result.{ok}
use luis_puentes.Models.{Fields, field, num, obj, LaneRecord}
use luis_puentes.Models.LaneKey.{split, join, normalize_lane_key}
use luis_puentes.Models.LaneKey.Words.{IsWord, normalize_lane_key-words}
use luis_puentes.Policy.{Policy, evaluate_action}
use luis_puentes.Policy.Decisions.{reference, evaluate_action-reference}
use luis_puentes.Rotation.{RotationDecision, default_policy, evaluate, reset}
use luis_puentes.Rotation.Counters.{ends, is_due, evaluate-ends}
use luis_puentes.Policy.Registry.{shipped_policies, is_stale_source, shipped_policies-execute}
use luis_puentes.Samples.{lane_named, sample_task, write_policy, isolation_policy}

normalize_lane_key-words_example :
    (split "ops two" ≡ split " ops \n two ")
    × All IsWord (split "ops two")
    × ("ops two" ≡ join (split "ops two"))
    × (◌≢◌ {A = String} "ops two" "")
unfolding normalize_lane_key
normalize_lane_key-words_example = normalize_lane_key-words " ops \n two " "ops two" refl

abbrev registry : List Policy
registry = write_policy ∷ isolation_policy ∷ []

evaluate_action-reference_example :
    evaluate_action registry "execute" sample_task "/work"
    ≡ reference "execute" sample_task "/work" registry
evaluate_action-reference_example = evaluate_action-reference "execute" sample_task "/work" registry

evaluate-ends_example :
    (l : LaneRecord) × (d : RotationDecision) × (ends 5 (reset (lane_named "ops") 7) ≡ ok l)
    × (evaluate default_policy l sample_task 900 8 ≡ ok d)
    × (d.rotate ≡ is_due default_policy l 7 5 900 8)
evaluate-ends_example = evaluate-ends default_policy (lane_named "ops") sample_task 7 5 900 8

abbrev failing_lane : LaneRecord
failing_lane = record (lane_named "ops") {
  config =
      field "rotation"
        (obj (field "run_count" (num 3) (field "startup_failure_count" (num 1) Fields.end)))
        Fields.end;
}

shipped_policies-execute_example :
    (evaluate_action shipped_policies "execute" sample_task "/work").allowed
    ≡ ("/work" == "/work" && not true && not (is_stale_source sample_task))
shipped_policies-execute_example = shipped_policies-execute sample_task "/work"

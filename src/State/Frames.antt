-- ===== src/State/Frames.antt =====
-- The calls that leave the tasks, the claims and the workspace as they are, whether they return or raise.
use luis_puentes.Prelude.{suc, String, Option, none, some, List}
use luis_puentes.Models.{
  Fields, TaskEnvelope, MessageEnvelope, LaneRecord, ArtifactClaim, ApprovalRequest,
}
use luis_puentes.Models.LaneKey.{normalize_lane_key}
use luis_puentes.State.{Store, Measure, pure, lift, utcnow, uuid4, append_event, record_metric}
use luis_puentes.State.Keeps.{Keeps, >>=-Keeps}
use luis_puentes.State.Lanes.{get_lane, upsert_lane, create_lane, ensure_lane}
use luis_puentes.State.Messages.{save_message}
use luis_puentes.State.Approvals.{save_approval}

module _ (P : List TaskEnvelope → List ArtifactClaim → String → Type 0) where
  abbrev pub On : Store → Type 0
  On s = P s.tasks s.claims s.workspace

  pub utcnow-On : Keeps On utcnow
  unfolding utcnow
  utcnow-On s h = h

  pub append_event-On :
      (event_type : String) (entity_type entity_id : Option String) (payload : Fields)
      → Keeps On (append_event event_type entity_type entity_id payload)
  unfolding append_event utcnow uuid4
  append_event-On event_type entity_type entity_id payload s h = h

  pub record_metric-On :
      (name : String) (value : Measure) (labels : Fields)
      → Keeps On (record_metric name value labels)
  unfolding record_metric utcnow uuid4
  record_metric-On name value labels s h = h

  pub save_message-On : (message : MessageEnvelope) → Keeps On (save_message message)
  unfolding save_message
  save_message-On message s h = h

  pub save_approval-On : (approval : ApprovalRequest) → Keeps On (save_approval approval)
  unfolding save_approval
  save_approval-On approval s h = h

  pub get_lane-On : (lane_key : String) → Keeps On (get_lane lane_key)
  unfolding get_lane
  get_lane-On lane_key = >>=-Keeps On (lift (normalize_lane_key lane_key)) _ (λ _ k. k) (λ _ s h. h)

  pub upsert_lane-On : (lane : LaneRecord) → Keeps On (upsert_lane lane)
  unfolding upsert_lane
  upsert_lane-On lane =
      >>=-Keeps On (lift (normalize_lane_key lane.lane_key)) _ (λ _ k. k) (λ _ s h. h)

  create_lane-On :
      (lane_key : String) (owner model : Option String)
      → Keeps On (create_lane lane_key owner model)
  unfolding create_lane utcnow
  create_lane-On lane_key owner model s h =
      >>=-Keeps On (upsert_lane _) _ (upsert_lane-On _) (λ _ u k. k)
        (record s { clock_reads = suc s.clock_reads }) h

  pub ensure_lane-On :
      (lane_key : String) (owner model : Option String)
      → Keeps On (ensure_lane lane_key owner model)
  unfolding ensure_lane
  ensure_lane-On lane_key owner model =
      >>=-Keeps On (lift (normalize_lane_key lane_key)) _ (λ _ k. k)
        (λ key. >>=-Keeps On (get_lane key) _ (get_lane-On key) (λ found. made key found))
    where
      made :
          (key : String) (found : Option LaneRecord)
          → Keeps On (elim found [ none ↦ create_lane key owner model | some lane ↦ pure lane ])
      made key none s h = create_lane-On key owner model s h
      made key (some lane) s h = h

-- ===== src/Locks/Frames.antt =====
-- `release` works on the claims, the lanes and the events: the tasks stay as they are.
use luis_puentes.Prelude.{
  suc, String, Bool, true, false, List, Option, some, none, inl, inr, Bool-cases, any,
}
use luis_puentes.Models.{TaskEnvelope, ArtifactClaim, LaneRecord}
use luis_puentes.State.{Store, M, ◌>>=◌, pure, for_each, utcnow, append_event}
use luis_puentes.State.Keeps.{Keeps, >>=-Keeps, for_each-Keeps}
use luis_puentes.State.Frames.{On, utcnow-On, append_event-On, get_lane-On, upsert_lane-On}
use luis_puentes.State.Lanes.{get_lane, upsert_lane}
use luis_puentes.State.Claims.{respects_index, upsert_claim, save_claim, list_active_claims}
use luis_puentes.Locks.{
  revise_claims, close_claim, is_held, close_held, drop_path, note_release, release,
}

module _ (P : List TaskEnvelope → String → Type 0) where
  abbrev Q : List TaskEnvelope → List ArtifactClaim → String → Type 0
  Q tasks claims workspace = P tasks workspace

  abbrev pub OnTasks : Store → Type 0
  OnTasks = On Q

  save_claim-OnTasks : (claim : ArtifactClaim) → Keeps OnTasks (save_claim claim)
  unfolding save_claim
  save_claim-OnTasks claim s h = elim (Bool-cases (respects_index (upsert_claim claim s.claims))) [
    | inl e ↦ rw e h
    | inr e ↦ rw e h
  ]

  close_held-OnTasks :
      (path lane_key : String) (claim : ArtifactClaim)
      → Keeps OnTasks (close_held path lane_key claim)
  unfolding close_claim utcnow
  close_held-OnTasks path lane_key claim s h = elim (Bool-cases (is_held path lane_key claim)) [
    | inl e ↦ rw e (
        save_claim-OnTasks (record claim { released_at = some (s.now s.clock_reads) })
          (record s { clock_reads = suc s.clock_reads }) h)
    | inr e ↦ rw e h
  ]

  abbrev revise_found : (List String → List String) → Option LaneRecord → M (Unit {0})
  revise_found f found = elim found [
    | none ↦ pure tt
    | some lane ↦ do
      now ← utcnow
      upsert_lane
          (record lane { active_artifact_claims = f lane.active_artifact_claims; updated_at = now })
  ]

  revise_found-OnTasks :
      (f : List String → List String) (found : Option LaneRecord)
      → Keeps OnTasks (revise_found f found)
  revise_found-OnTasks f none s h = h
  revise_found-OnTasks f (some lane) s h =
      >>=-Keeps OnTasks utcnow _ (utcnow-On Q) (λ now. upsert_lane-On Q _) s h

  revise_claims-OnTasks :
      (lane_key : String) (f : List String → List String) → Keeps OnTasks (revise_claims lane_key f)
  unfolding revise_claims
  revise_claims-OnTasks lane_key f =
      >>=-Keeps OnTasks (get_lane lane_key) _ (get_lane-On Q lane_key) (revise_found-OnTasks f)

  note_release-OnTasks :
      (path lane_key : String) (b : Bool) → Keeps OnTasks (note_release path lane_key b)
  note_release-OnTasks path lane_key false s h = h
  note_release-OnTasks path lane_key true s h =
      >>=-Keeps OnTasks (revise_claims lane_key (drop_path path)) _
        (revise_claims-OnTasks lane_key (drop_path path))
        (λ _. >>=-Keeps OnTasks (append_event _ _ _ _) _ (append_event-On Q _ _ _ _) (λ _ u k. k)) s
        h

  pub release-OnTasks : (path lane_key : String) → Keeps OnTasks (release path lane_key)
  unfolding release
  release-OnTasks path lane_key s h =
      >>=-Keeps OnTasks (for_each (list_active_claims s) (close_held path lane_key)) _
        (for_each-Keeps OnTasks (list_active_claims s) (close_held path lane_key)
          (close_held-OnTasks path lane_key))
        (λ _.
          note_release-OnTasks path lane_key (any (is_held path lane_key) (list_active_claims s)))
        s h

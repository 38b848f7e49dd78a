-- ===== src/Locks.antt =====
-- orchestrator/locks.py: claims on artifacts, with a write lock for each path.
pub mod Acquire
pub mod Calls
pub mod Frames
pub mod Release
pub mod Stale
use luis_puentes.Prelude.{
  ℕ, zero, suc, ◌+◌, ◌*◌, String, Bool, true, false, Option, none, some, List, [], ◌∷◌, ◌++◌,
  concat, ◌==◌, ◌&&◌, not, if◌then◌else◌, ltb, any, keep, contains,
}
use luis_puentes.Result.{permission_error}
use luis_puentes.Models.{Fields, field, Json, str, bool, ArtifactClaim, LaneRecord}
use luis_puentes.State.{
  Store, M, ◌>>=◌, ◌>>◌, pure, throw, gets, for_each, utcnow, uuid4, append_event,
}
use luis_puentes.State.Lanes.{get_lane, upsert_lane}
use luis_puentes.State.Claims.{is_open, save_claim, get_active_write_claim, list_active_claims}

abbrev pub default_ttl_seconds : ℕ
default_ttl_seconds = 3600

-- `ttl_seconds or self.default_ttl_seconds`
abbrev pub ttl_or_default : Option ℕ → ℕ
ttl_or_default none = default_ttl_seconds
ttl_or_default (some zero) = default_ttl_seconds
ttl_or_default (some (suc n)) = suc n

-- `timedelta(seconds=n)`, in microseconds
abbrev pub seconds : ℕ → ℕ
seconds n = n * 1000000

-- The guard of `acquire`: another lane's write claim stops it.
unfoldable pub check_writer : String → String → Bool → M (Unit {0})
unfolding get_active_write_claim
check_writer artifact_path lane_key false = pure tt
check_writer artifact_path lane_key true = do
  existing ← get_active_write_claim artifact_path
  elim existing [
    | none ↦ pure tt
    | some claim ↦
        (if claim.lane_key == lane_key
          then pure tt
          else throw (
              permission_error (
                concat (
                  "Artifact " ∷ artifact_path ∷ " is write-locked by lane " ∷ claim.lane_key
                  ∷ []))))
  ]

-- `if lane: …`, with the lane's list of claims made anew and `updated_at` set
unfoldable pub revise_claims : String → (List String → List String) → M (Unit {0})
unfolding get_lane upsert_lane utcnow
revise_claims lane_key change = do
  found ← get_lane lane_key
  elim found [
    | none ↦ pure tt
    | some lane ↦ do
      now ← utcnow
      upsert_lane (record lane {
        active_artifact_claims = change lane.active_artifact_claims;
        updated_at = now;
      })
  ]

abbrev pub add_path : String → List String → List String
add_path path claims = if contains claims path then claims else claims ++ path ∷ []

abbrev pub drop_path : String → List String → List String
drop_path path = keep (λ p. not (p == path))

unfoldable pub acquire :
    String → String → String → Option String → Bool → Option ℕ → M ArtifactClaim
unfolding utcnow uuid4
acquire artifact_path lane_key owner task_id write_capable ttl_seconds = do
  check_writer artifact_path lane_key write_capable
  acquired_at ← utcnow
  started ← utcnow
  claim_id ← uuid4
  workspace ← gets (λ s. s.workspace)
  let claim : ArtifactClaim = record {
    claim_id = claim_id;
    workspace = workspace;
    artifact_path = artifact_path;
    lane_key = lane_key;
    task_id = task_id;
    owner = owner;
    write_capable = write_capable;
    acquired_at = acquired_at;
    expires_at = some (started + seconds (ttl_or_default ttl_seconds));
    released_at = none;
  }
  save_claim claim
  revise_claims lane_key (add_path artifact_path)
  append_event "artifact.claim.acquired" (some "artifact") (some artifact_path)
      (field "lane_key" (str lane_key) (field "write_capable" (bool write_capable) Fields.end))
  pure claim

-- `claim.released_at = utcnow_iso(); self.store.save_claim(claim)`
unfoldable pub close_claim : ArtifactClaim → M (Unit {0})
unfolding utcnow save_claim
close_claim claim = do now ← utcnow; save_claim (record claim { released_at = some now })

abbrev pub is_held : String → String → ArtifactClaim → Bool
is_held artifact_path lane_key claim =
    claim.artifact_path == artifact_path && claim.lane_key == lane_key

abbrev pub close_held : String → String → ArtifactClaim → M (Unit {0})
close_held artifact_path lane_key claim =
    if is_held artifact_path lane_key claim then close_claim claim else pure tt

-- The tail of `release`: what it notes when a claim was closed.
abbrev pub note_release : String → String → Bool → M Bool
note_release artifact_path lane_key false = pure false
note_release artifact_path lane_key true = do
  revise_claims lane_key (drop_path artifact_path)
  append_event "artifact.claim.released" (some "artifact") (some artifact_path)
      (field "lane_key" (str lane_key) Fields.end)
  pure true

unfoldable pub release : String → String → M Bool
release artifact_path lane_key = do
  claims ← gets list_active_claims
  for_each claims (close_held artifact_path lane_key)
  note_release artifact_path lane_key (any (is_held artifact_path lane_key) claims)

-- `claim.expires_at and datetime.fromisoformat(claim.expires_at) < current`
abbrev pub is_stale : ℕ → ArtifactClaim → Bool
is_stale current claim = elim claim.expires_at [ none ↦ false | some t ↦ ltb t current ]

unfoldable pub recover_claim : ArtifactClaim → M ArtifactClaim
recover_claim claim = do
  now ← utcnow
  let released : ArtifactClaim = record claim { released_at = some now }
  save_claim released
  revise_claims claim.lane_key (drop_path claim.artifact_path)
  append_event "artifact.claim.recovered" (some "artifact") (some claim.artifact_path)
      (field "lane_key" (str claim.lane_key) Fields.end)
  pure released

-- The loop over the stale claims: each is recovered and appended to the list.
unfoldable pub recover_claims : List ArtifactClaim → M (List ArtifactClaim)
recover_claims [] = pure []
recover_claims (claim ∷ claims) =
    let rest = recover_claims claims in
    do released ← recover_claim claim; others ← rest; pure (released ∷ others)

abbrev pub sweep_stale : ℕ → M (List ArtifactClaim)
sweep_stale current = do
  claims ← gets list_active_claims
  recover_claims (keep (is_stale current) claims)

-- The claims that were stale, as they were closed, in the order of their acquisition.
unfoldable pub recover_stale : Option ℕ → M (List ArtifactClaim)
recover_stale now = do current ← elim now [ none ↦ utcnow | some t ↦ pure t ]; sweep_stale current

-- ===== src/State/Claims.antt =====
-- The artifact claims of orchestrator/state.py. The primary key is claim_id, and a unique index lets an
-- artifact have one write claim that is not released.
pub mod Exclusive
use luis_puentes.Prelude.{
  ℕ, String, Bool, true, false, Option, none, some, List, [], ◌∷◌, ◌++◌, ◌==◌, ◌&&◌, not,
  if◌then◌else◌, leb, first, any, keep, update_where, sort_by,
}
use luis_puentes.Result.{ok, raise, integrity_error}
use luis_puentes.Models.{ArtifactClaim}
use luis_puentes.State.{Store, M}

abbrev pub has_id : String → ArtifactClaim → Bool
has_id claim_id row = row.claim_id == claim_id

-- `released_at IS NULL`
abbrev pub is_open : ArtifactClaim → Bool
is_open claim = elim claim.released_at [ none ↦ true | some t ↦ false ]

-- `workspace = ? AND artifact_path = ? AND write_capable = 1 AND released_at IS NULL`
unfoldable pub is_write_lock : String → String → ArtifactClaim → Bool
is_write_lock workspace artifact_path claim =
    claim.workspace == workspace
    && claim.artifact_path == artifact_path
    && claim.write_capable
    && is_open claim

-- The unique index idx_active_write_claim, over a whole table.
unfoldable pub respects_index : List ArtifactClaim → Bool
respects_index [] = true
respects_index (c ∷ rows) =
    not (
      is_write_lock c.workspace c.artifact_path c
      && any (is_write_lock c.workspace c.artifact_path) rows)
    && respects_index rows

-- The columns that `DO UPDATE SET` names.
unfoldable pub overwrite_claim : ArtifactClaim → ArtifactClaim → ArtifactClaim
overwrite_claim claim row = record row {
  released_at = claim.released_at;
  expires_at = claim.expires_at;
}

unfoldable pub upsert_claim : ArtifactClaim → List ArtifactClaim → List ArtifactClaim
unfolding overwrite_claim
upsert_claim claim rows =
    if any (has_id claim.claim_id) rows
    then update_where (has_id claim.claim_id) (overwrite_claim claim) rows
    else rows ++ claim ∷ []

-- A statement that breaks the index is undone.
unfoldable pub save_claim : ArtifactClaim → M (Unit {0})
unfolding upsert_claim respects_index
save_claim claim s =
    let rows = upsert_claim claim s.claims in
    if respects_index rows then (ok tt, record s { claims = rows }) else (raise integrity_error, s)

unfoldable pub write_claim : Store → String → Option ArtifactClaim
write_claim s artifact_path = first (is_write_lock s.workspace artifact_path) s.claims

unfoldable pub get_active_write_claim : String → M (Option ArtifactClaim)
unfolding write_claim
get_active_write_claim artifact_path s = (ok (write_claim s artifact_path), s)

unfoldable pub list_active_claims : Store → List ArtifactClaim
list_active_claims s =
    sort_by (λ a b. leb a.acquired_at b.acquired_at)
      (keep (λ c. c.workspace == s.workspace && is_open c) s.claims)

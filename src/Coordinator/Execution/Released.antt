-- ===== src/Coordinator/Execution/Released.antt =====
-- The locks that a run was given are given back, whatever becomes of it.
pub mod Run
use luis_puentes.Prelude.{
  ℕ, suc, String, ◌≡◌, ◌⊎◌, refl, sym, ap, ◌∙◌, subst, Bool, true, false, Option, some, none, List,
  [], ◌∷◌, ◌++◌, ◌==◌, any, keep, update_where, contains, arith, eq_iff, Bool-cases, inl, inr,
}
use luis_puentes.Result.{Failure, Result, ok, raise}
use luis_puentes.Models.{ArtifactClaim, TaskEnvelope}
use luis_puentes.Models.LaneKey.{normalize_lane_key}
use luis_puentes.State.{Store, M, append_event, ◌>>◌, pure, for_each, utcnow}
use luis_puentes.State.Keeps.{Keeps, >>=-Keeps, for_each-Keeps}
use luis_puentes.State.Frames.{append_event-On}
use luis_puentes.State.Claims.{
  has_id, respects_index, overwrite_claim, upsert_claim, save_claim, list_active_claims,
}
use luis_puentes.Locks.{
  revise_claims, drop_path, close_claim, close_held, is_held, note_release, release,
}
use luis_puentes.Locks.Calls.{revise_claims-claims, release-Keeps}
use luis_puentes.Locks.Frames.{release-OnTasks}
use luis_puentes.Locks.Release.{is_holding, closed, release-done}
use luis_puentes.Coordinator.Execution.{release_all}

-- No open claim of the lane on the artifact.
abbrev pub IsFree : String → String → String → List ArtifactClaim → Type 0
IsFree w path lane_key claims = any (is_holding w path lane_key) claims ≡ false

update-IsFree :
    (w path lane_key : String) (claim : ArtifactClaim) (now : ℕ) (rows : List ArtifactClaim)
    → IsFree w path lane_key rows
    → IsFree w path lane_key
        (update_where (has_id claim.claim_id) (overwrite_claim (closed claim now)) rows)
unfolding overwrite_claim
update-IsFree w path lane_key claim now [] h = refl
update-IsFree w path lane_key claim now (row ∷ rows) h =
    elim (Bool-cases (has_id claim.claim_id row)) [
      | inl e ↦ rw e (ground (arith, update-IsFree w path lane_key claim now rows))
      | inr e ↦ rw e (ground (arith, update-IsFree w path lane_key claim now rows))
    ]

append-IsFree :
    (w path lane_key : String) (claim : ArtifactClaim) (now : ℕ) (rows : List ArtifactClaim)
    → IsFree w path lane_key rows
    → IsFree w path lane_key (rows ++ closed claim now ∷ [])
append-IsFree w path lane_key claim now [] h = ground arith
append-IsFree w path lane_key claim now (row ∷ rows) h =
    ground (arith, append-IsFree w path lane_key claim now rows)

module _ (w path lane_key : String) where
  abbrev Free : Store → Type 0
  Free s = IsFree w path lane_key s.claims

  close_claim-Free : (claim : ArtifactClaim) → Keeps Free (close_claim claim)
  unfolding close_claim utcnow save_claim upsert_claim
  close_claim-Free claim s h =
      let now = s.now s.clock_reads in
      elim (Bool-cases (respects_index (upsert_claim (closed claim now) s.claims))) [
        | inr e ↦ rw e h
        | inl e ↦ rw e (elim (Bool-cases (any (has_id claim.claim_id) s.claims)) [
          | inl f ↦ rw f (update-IsFree w path lane_key claim now s.claims h)
          | inr f ↦ rw f (append-IsFree w path lane_key claim now s.claims h)
        ])
      ]

  note_release-Free : (p key : String) (b : Bool) → Keeps Free (note_release p key b)
  note_release-Free p key false s h = h
  note_release-Free p key true s h =
      >>=-Keeps Free (revise_claims key (drop_path p)) _
        (λ s h. rw (revise_claims-claims key (drop_path p) s) h)
        (λ _.
          >>=-Keeps Free (append_event _ _ _ _) _
            (append_event-On (λ tasks c u. IsFree w path lane_key c) _ _ _ _) (λ _ u k. k))
        s h

  release-Free : (p key : String) → Keeps Free (release p key)
  unfolding release
  release-Free p key s h =
      >>=-Keeps Free (for_each (list_active_claims s) (close_held p key)) _
        (for_each-Keeps Free (list_active_claims s) (close_held p key) close_held-Free)
        (λ _. note_release-Free p key (any (is_held p key) (list_active_claims s))) s h
    where
      close_held-Free : (claim : ArtifactClaim) → Keeps Free (close_held p key claim)
      close_held-Free claim s h = elim (Bool-cases (is_held p key claim)) [
        | inl e ↦ rw e (close_claim-Free claim s h)
        | inr e ↦ rw e h
      ]

-- Giving back the locks succeeds, and none of them is left.
pub release_all-IsFree :
    (task : TaskEnvelope) (n w path : String) (held : List String) (s : Store)
    → respects_index s.claims ≡ true
    → normalize_lane_key task.lane_key ≡ ok n
    → s.workspace ≡ w
    → (contains held path ≡ true) ⊎ IsFree w path task.lane_key s.claims
    → ((release_all task held s).0 ≡ ok tt)
      × IsFree w path task.lane_key (release_all task held s).1.claims
unfolding for_each
release_all-IsFree task n w path [] s index key home h = elim h [ inl e ↦ cc | inr f ↦ (refl, f) ]
release_all-IsFree task n w path (x ∷ held) s index key home h =
    let (done, free) = release-done x task.lane_key n s index key in
    let t : Store = (release x task.lane_key s).1 in
    let (all, last) =
      release_all-IsFree task n w path held t (release-Keeps x task.lane_key s index) key
        (release-OnTasks (λ tasks u. u ≡ w) x task.lane_key s home)
        (next (Bool-cases (x == path)) h free) in
    (rw done all, rw done last)
  where
    next :
        ((x == path) ≡ true) ⊎ ((x == path) ≡ false)
        → (contains (x ∷ held) path ≡ true) ⊎ IsFree w path task.lane_key s.claims
        → IsFree s.workspace x task.lane_key (release x task.lane_key s).1.claims
        → (contains held path ≡ true)
          ⊎ IsFree w path task.lane_key (release x task.lane_key s).1.claims
    next (inl e) h free = inr (
        subst (λ (p : String). IsFree w p task.lane_key (release x task.lane_key s).1.claims)
          ((eq_iff x path).0 e)
          (subst (λ (v : String). IsFree v x task.lane_key (release x task.lane_key s).1.claims)
            home free))
    next (inr e) (inl c) free = inl (rw e at c)
    next (inr e) (inr f) free = inr (release-Free w path task.lane_key x task.lane_key s f)

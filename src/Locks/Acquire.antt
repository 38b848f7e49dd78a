-- ===== src/Locks/Acquire.antt =====
-- What `acquire` does with the write lock of an artifact.
use luis_puentes.Prelude.{
  ℕ, suc, ◌+◌, String, ◌≡◌, refl, ◌∙◌, Bool, true, false, Option, none, some, List, [], ◌∷◌, ◌++◌,
  arith, eq_iff, eq_refl, any, Option-cases, inl, inr, first-passes, first-append_none, any-first,
  first-any,
}
use luis_puentes.Result.{ok, raise, integrity_error}
use luis_puentes.Models.{ArtifactClaim, LaneRecord, Fields, field, str, bool}
use luis_puentes.Models.LaneKey.{normalize_lane_key}
use luis_puentes.Models.LaneKey.Words.{normalize_lane_key_idem}
use luis_puentes.State.{Event, Store, append_event}
use luis_puentes.State.Lanes.{has_key, find_lane, get_lane, upsert_lane, upsert_rows}
use luis_puentes.State.Claims.{has_id, is_write_lock, respects_index, save_claim, write_claim}
use luis_puentes.State.Claims.Exclusive.{respects_index-append, respects_index-refuses}
use luis_puentes.Locks.{check_writer, revise_claims, add_path, acquire, ttl_or_default, seconds}

pub find_lane-key :
    (s : Store) (key : String) (lane : LaneRecord)
    → find_lane s key ≡ some lane
    → lane.lane_key ≡ key
unfolding find_lane
find_lane-key s key lane h =
    ground (arith, first-passes (has_key s.workspace key) s.lanes lane h, eq_iff lane.lane_key key)

-- `revise_claims` writes to the lanes, and reads the clock.
pub revise_claims_lem :
    (lane_key n : String) (f : List String → List String) (s : Store)
    → normalize_lane_key lane_key ≡ ok n
    → (lanes : List LaneRecord) × (reads : ℕ) × (revise_claims lane_key f s
        ≡ (ok tt, record s { lanes = lanes; clock_reads = reads }))
unfolding revise_claims get_lane upsert_lane
revise_claims_lem lane_key n f s h = elim (Option-cases (find_lane s n)) [
  | inl e ↦ (s.lanes, s.clock_reads, ground (arith, e, h))
  | inr (lane, e) ↦ (
    upsert_rows
        (record lane {
          lane_key = n;
          active_artifact_claims = f lane.active_artifact_claims;
          updated_at = s.now s.clock_reads;
        })
        s.lanes,
    suc s.clock_reads,
    ground (arith, e, h, find_lane-key s n lane e, normalize_lane_key_idem lane_key n h),
  )
]

check_writer_free :
    (path lane_key : String) (s : Store)
    → write_claim s path ≡ none
    → check_writer path lane_key true s ≡ (ok tt, s)
unfolding check_writer
check_writer_free path lane_key s free = ground (arith, free)

check_writer_own :
    (path lane_key : String) (s : Store) (holder : ArtifactClaim)
    → write_claim s path ≡ some holder
    → holder.lane_key ≡ lane_key
    → check_writer path lane_key true s ≡ (ok tt, s)
unfolding check_writer
check_writer_own path lane_key s holder held own =
    ground (arith, held, eq_iff holder.lane_key lane_key)

-- The store when the claim is written: two readings of the clock and an id later.
abbrev started : Store → Store
started s = record s { clock_reads = suc (suc s.clock_reads); ids_drawn = suc s.ids_drawn }

save_claim_accepted :
    (claim : ArtifactClaim) (s : Store)
    → any (has_id claim.claim_id) s.claims ≡ false
    → respects_index (s.claims ++ claim ∷ []) ≡ true
    → save_claim claim s ≡ (ok tt, record s { claims = s.claims ++ claim ∷ [] })
unfolding save_claim
save_claim_accepted claim s new index = ground arith

save_claim_refused :
    (claim : ArtifactClaim) (s : Store)
    → any (has_id claim.claim_id) s.claims ≡ false
    → respects_index (s.claims ++ claim ∷ []) ≡ false
    → save_claim claim s ≡ (raise integrity_error, s)
unfolding save_claim
save_claim_refused claim s new index = ground arith

pub append_event_lem :
    (event_type : String) (entity_type entity_id : Option String) (payload : Fields) (s : Store)
    → (events : List Event) × (append_event event_type entity_type entity_id payload s ≡ (
      ok (s.fresh s.ids_drawn),
      record s { events = events; clock_reads = suc s.clock_reads; ids_drawn = suc s.ids_drawn },
    ))
unfolding append_event
append_event_lem event_type entity_type entity_id payload s = (_, refl)

-- The claim that `acquire` makes.
abbrev pub new_claim :
    Store → String → String → String → Option String → Bool → Option ℕ → ArtifactClaim
new_claim s path lane_key owner task_id write_capable ttl = record {
  claim_id = s.fresh s.ids_drawn;
  workspace = s.workspace;
  artifact_path = path;
  lane_key = lane_key;
  task_id = task_id;
  owner = owner;
  write_capable = write_capable;
  acquired_at = s.now s.clock_reads;
  expires_at = some (s.now (suc s.clock_reads) + seconds (ttl_or_default ttl));
  released_at = none;
}

new_claim-lock :
    (s : Store) (path lane_key owner : String) (task_id : Option String) (ttl : Option ℕ)
    → is_write_lock s.workspace path (new_claim s path lane_key owner task_id true ttl) ≡ true
unfolding is_write_lock
new_claim-lock s path lane_key owner task_id ttl = ground (arith, eq_refl s.workspace, eq_refl path)

-- The lane itself holds the lock already: the guard lets it through, and the unique index then refuses
-- the second claim, so that `acquire` raises IntegrityError and no claim is made.
pub acquire-again :
    (path lane_key owner : String) (task_id : Option String) (ttl : Option ℕ) (s : Store)
    (holder : ArtifactClaim)
    → write_claim s path ≡ some holder
    → holder.lane_key ≡ lane_key
    → any (has_id (s.fresh s.ids_drawn)) s.claims ≡ false
    → let (result, t) = acquire path lane_key owner task_id true ttl s in
      (result ≡ raise integrity_error) × (t.claims ≡ s.claims)
unfolding acquire
acquire-again path lane_key owner task_id ttl s holder held own new =
    let claim = new_claim s path lane_key owner task_id true ttl in
    let refused = save_claim_refused claim (started s) new (
      respects_index-refuses s.claims claim (new_claim-lock s path lane_key owner task_id ttl)
        (unfold write_claim in any-first (is_write_lock s.workspace path) s.claims holder held)) in
    ground (arith, check_writer_own path lane_key s holder held own, refused)

write_claim-none :
    (s : Store) (path : String)
    → write_claim s path ≡ none
    → any (is_write_lock s.workspace path) s.claims ≡ false
unfolding write_claim
write_claim-none s path h = first-any (is_write_lock s.workspace path) s.claims h

write_claim-append :
    (s t : Store) (path : String) (claim : ArtifactClaim)
    → any (is_write_lock s.workspace path) s.claims ≡ false
    → is_write_lock s.workspace path claim ≡ true
    → t.workspace ≡ s.workspace
    → t.claims ≡ s.claims ++ claim ∷ []
    → write_claim t path ≡ some claim
unfolding write_claim
write_claim-append s t path claim none_held lock same grown =
    rw (same, grown)
      (first-append_none (is_write_lock s.workspace path) s.claims (claim ∷ []) none_held ∙ rw lock)

-- On an artifact with no write claim, `acquire` succeeds for a lane key that can be normalized and a
-- new id: the claim joins the others, and it is the write lock of the artifact afterwards.
pub acquire-free :
    (path lane_key n owner : String) (task_id : Option String) (ttl : Option ℕ) (s : Store)
    → write_claim s path ≡ none
    → any (has_id (s.fresh s.ids_drawn)) s.claims ≡ false
    → respects_index s.claims ≡ true
    → normalize_lane_key lane_key ≡ ok n
    → let claim = new_claim s path lane_key owner task_id true ttl in
      let (result, t) = acquire path lane_key owner task_id true ttl s in
      (result ≡ ok claim) × (t.claims ≡ s.claims ++ claim ∷ []) × (write_claim t path ≡ some claim)
unfolding acquire
acquire-free path lane_key n owner task_id ttl s free new index key =
    let claim = new_claim s path lane_key owner task_id true ttl in
    let none_held = write_claim-none s path free in
    let lock = new_claim-lock s path lane_key owner task_id ttl in
    let accepted =
      save_claim_accepted claim (started s) new
        (respects_index-append s.claims claim index (ground arith)) in
    let s1 : Store = record (started s) { claims = s.claims ++ claim ∷ [] } in
    let (lanes, reads, revised) = revise_claims_lem lane_key n (add_path path) s1 key in
    let s2 : Store = record s1 { lanes = lanes; clock_reads = reads } in
    let (events, logged) =
      append_event_lem "artifact.claim.acquired" (some "artifact") (some path)
        (field "lane_key" (str lane_key) (field "write_capable" (bool true) Fields.end)) s2 in
    let s3 : Store = record s2 {
      events = events;
      clock_reads = suc reads;
      ids_drawn = suc (suc s.ids_drawn);
    } in
    ground (
      arith,
      check_writer_free path lane_key s free,
      accepted,
      revised,
      logged,
      write_claim-append s s3 path claim none_held lock refl refl,
    )

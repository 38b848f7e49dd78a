-- ===== src/Locks/Calls.antt =====
-- Any sequence of calls of the lock manager, by any lanes and on any artifacts, returning or raising.
use luis_puentes.Prelude.{
  ℕ, suc, ◌≤◌, String, ◌≡◌, Bool, true, false, Option, none, some, List, [], ◌∷◌, count, keep, any,
  arith, Bool-cases, Option-cases, inl, inr,
}
use luis_puentes.Models.{ArtifactClaim, Fields}
use luis_puentes.Models.LaneKey.{normalize_lane_key}
use luis_puentes.State.{Store, ◌>>◌, utcnow, uuid4, append_event, for_each}
use luis_puentes.State.Laws.{Result-cases}
use luis_puentes.State.Keeps.{Keeps, >>=-Keeps, for_each-Keeps}
use luis_puentes.State.Lanes.{find_lane, get_lane, upsert_lane}
use luis_puentes.State.Claims.{
  is_write_lock, respects_index, upsert_claim, save_claim, list_active_claims, write_claim,
  get_active_write_claim,
}
use luis_puentes.State.Claims.Exclusive.{respects_index-count}
use luis_puentes.Locks.{
  check_writer, revise_claims, add_path, drop_path, acquire, close_claim, close_held, is_held,
  note_release, release, sweep_stale, is_stale, recover_claim, recover_claims, recover_stale,
}

-- A call with its arguments.
pub data LockCall : Type 0 where
  acquiring : String → String → String → Option String → Bool → Option ℕ → LockCall
  releasing : String → String → LockCall
  recovering : Option ℕ → LockCall

-- The store after the call, whatever came of it.
unfoldable pub after_call : LockCall → Store → Store
after_call (acquiring path lane_key owner task_id write_capable ttl) s =
    (acquire path lane_key owner task_id write_capable ttl s).1
after_call (releasing path lane_key) s = (release path lane_key s).1
after_call (recovering now) s = (recover_stale now s).1

unfoldable pub after_calls : List LockCall → Store → Store
after_calls [] s = s
after_calls (c ∷ cs) s = after_calls cs (after_call c s)

abbrev pub IsExclusive : Store → Type 0
IsExclusive s = respects_index s.claims ≡ true

save_claim-Keeps : (claim : ArtifactClaim) → Keeps IsExclusive (save_claim claim)
unfolding save_claim
save_claim-Keeps claim s h = elim (Bool-cases (respects_index (upsert_claim claim s.claims))) [
  | inl e ↦ rw e e
  | inr e ↦ rw e h
]

-- Whatever it meets, `revise_claims` leaves the claims alone.
pub revise_claims-claims :
    (lane_key : String) (f : List String → List String) (s : Store)
    → (revise_claims lane_key f s).1.claims ≡ s.claims
unfolding revise_claims get_lane upsert_lane utcnow
revise_claims-claims lane_key f s = elim (Result-cases (normalize_lane_key lane_key)) [
  | inr (x, e) ↦ ground (arith, e)
  | inl (n, e) ↦ elim (Option-cases (find_lane s n)) [
    | inl none_found ↦ ground (arith, e, none_found)
    | inr (lane, found) ↦ elim (Result-cases (normalize_lane_key lane.lane_key)) [
      | inl (k, g) ↦ ground (arith, e, found, g)
      | inr (x, g) ↦ ground (arith, e, found, g)
    ]
  ]
]

revise_claims-Keeps :
    (lane_key : String) (f : List String → List String)
    → Keeps IsExclusive (revise_claims lane_key f)
revise_claims-Keeps lane_key f s h = rw (revise_claims-claims lane_key f s) h

append_event-Keeps :
    (event_type : String) (entity_type entity_id : Option String) (payload : Fields)
    → Keeps IsExclusive (append_event event_type entity_type entity_id payload)
unfolding append_event utcnow uuid4
append_event-Keeps event_type entity_type entity_id payload s h = h

check_writer-Keeps :
    (path lane_key : String) (write_capable : Bool)
    → Keeps IsExclusive (check_writer path lane_key write_capable)
unfolding check_writer get_active_write_claim
check_writer-Keeps path lane_key false s h = h
check_writer-Keeps path lane_key true s h = elim (Option-cases (write_claim s path)) [
  | inl e ↦ rw e h
  | inr (c, e) ↦ ground (arith, e)
]

acquire-Keeps :
    (path lane_key owner : String) (task_id : Option String) (write_capable : Bool) (ttl : Option ℕ)
    → Keeps IsExclusive (acquire path lane_key owner task_id write_capable ttl)
unfolding acquire utcnow uuid4
acquire-Keeps path lane_key owner task_id write_capable ttl s h =
    >>=-Keeps IsExclusive (check_writer path lane_key write_capable) _
      (check_writer-Keeps path lane_key write_capable)
      (λ _ s1 h1.
        >>=-Keeps IsExclusive (save_claim _) _ (save_claim-Keeps _)
          (λ _.
            >>=-Keeps IsExclusive (revise_claims lane_key (add_path path)) _
              (revise_claims-Keeps lane_key (add_path path))
              (λ _.
                >>=-Keeps IsExclusive (append_event _ _ _ _) _ (append_event-Keeps _ _ _ _)
                  (λ _ u k. k)))
          (record s1 { clock_reads = suc (suc s1.clock_reads); ids_drawn = suc s1.ids_drawn }) h1)
      s h

close_claim-Keeps : (claim : ArtifactClaim) → Keeps IsExclusive (close_claim claim)
unfolding close_claim utcnow
close_claim-Keeps claim s h =
    save_claim-Keeps (record claim { released_at = some (s.now s.clock_reads) })
      (record s { clock_reads = suc s.clock_reads }) h

close_held-Keeps :
    (path lane_key : String) (claim : ArtifactClaim)
    → Keeps IsExclusive (close_held path lane_key claim)
close_held-Keeps path lane_key claim s h = elim (Bool-cases (is_held path lane_key claim)) [
  | inl e ↦ rw e (close_claim-Keeps claim s h)
  | inr e ↦ rw e h
]

note_release-Keeps :
    (path lane_key : String) (released : Bool)
    → Keeps IsExclusive (note_release path lane_key released)
note_release-Keeps path lane_key false s h = h
note_release-Keeps path lane_key true s h =
    >>=-Keeps IsExclusive (revise_claims lane_key (drop_path path)) _
      (revise_claims-Keeps lane_key (drop_path path))
      (λ _.
        >>=-Keeps IsExclusive (append_event _ _ _ _) _ (append_event-Keeps _ _ _ _) (λ _ u k. k))
      s h

pub release-Keeps : (path lane_key : String) → Keeps IsExclusive (release path lane_key)
unfolding release
release-Keeps path lane_key s h =
    >>=-Keeps IsExclusive (for_each (list_active_claims s) (close_held path lane_key)) _
      (for_each-Keeps IsExclusive (list_active_claims s) (close_held path lane_key)
        (close_held-Keeps path lane_key))
      (λ _. note_release-Keeps path lane_key (any (is_held path lane_key) (list_active_claims s))) s
      h

recover_claim-Keeps : (claim : ArtifactClaim) → Keeps IsExclusive (recover_claim claim)
unfolding recover_claim close_claim utcnow
recover_claim-Keeps claim s h =
    >>=-Keeps IsExclusive (close_claim claim)
      (λ _. revise_claims claim.lane_key (drop_path claim.artifact_path) >> _)
      (close_claim-Keeps claim)
      (λ _.
        >>=-Keeps IsExclusive (revise_claims claim.lane_key (drop_path claim.artifact_path)) _
          (revise_claims-Keeps claim.lane_key (drop_path claim.artifact_path))
          (λ _.
            >>=-Keeps IsExclusive (append_event _ _ _ _) _ (append_event-Keeps _ _ _ _)
              (λ _ u k. k)))
      s h

recover_claims-Keeps : (claims : List ArtifactClaim) → Keeps IsExclusive (recover_claims claims)
unfolding recover_claims
recover_claims-Keeps [] s h = h
recover_claims-Keeps (claim ∷ claims) s h =
    >>=-Keeps IsExclusive (recover_claim claim) _ (recover_claim-Keeps claim)
      (λ _.
        >>=-Keeps IsExclusive (recover_claims claims) _ (recover_claims-Keeps claims) (λ _ u k. k))
      s h

sweep-Keeps : (current : ℕ) → Keeps IsExclusive (sweep_stale current)
sweep-Keeps current s h = recover_claims-Keeps (keep (is_stale current) (list_active_claims s)) s h

recover_stale-Keeps : (now : Option ℕ) → Keeps IsExclusive (recover_stale now)
unfolding recover_stale utcnow
recover_stale-Keeps none s h =
    sweep-Keeps (s.now s.clock_reads) (record s { clock_reads = suc s.clock_reads }) h
recover_stale-Keeps (some t) s h = sweep-Keeps t s h

after_call-Keeps : (c : LockCall) (s : Store) → IsExclusive s → IsExclusive (after_call c s)
unfolding after_call
after_call-Keeps (acquiring path lane_key owner task_id write_capable ttl) s h =
    acquire-Keeps path lane_key owner task_id write_capable ttl s h
after_call-Keeps (releasing path lane_key) s h = release-Keeps path lane_key s h
after_call-Keeps (recovering now) s h = recover_stale-Keeps now s h

after_calls-Keeps :
    (cs : List LockCall) (s : Store) → IsExclusive s → IsExclusive (after_calls cs s)
unfolding after_calls
after_calls-Keeps [] s h = h
after_calls-Keeps (c ∷ cs) s h = after_calls-Keeps cs (after_call c s) (after_call-Keeps c s h)

-- From a store whose claims the unique index accepts, after any sequence of calls of the lock manager,
-- whether they return or raise, every artifact has one open write claim at most.
pub after_calls-count :
    (cs : List LockCall) (s : Store) (workspace path : String)
    → respects_index s.claims ≡ true
    → count (is_write_lock workspace path) (after_calls cs s).claims ≤ 1
after_calls-count cs s workspace path h =
    respects_index-count (after_calls cs s).claims workspace path (after_calls-Keeps cs s h)

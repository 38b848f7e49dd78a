-- ===== src/Locks/Stale.antt =====
-- What `recover_stale` does with the claims that are past their time.
use luis_puentes.Prelude.{
  ℕ, suc, String, ◌≡◌, refl, Bool, true, false, some, List, [], ◌∷◌, ◌==◌, ◌&&◌, keep, any, arith,
  leb, All,
}
use luis_puentes.Prelude.Sweep.{keep-In, sort_by-In, Covered, Covered-start, Covered-end}
use luis_puentes.Result.{ok}
use luis_puentes.Models.{ArtifactClaim, Fields, field, str}
use luis_puentes.Models.LaneKey.{normalize_lane_key}
use luis_puentes.State.{Store, utcnow}
use luis_puentes.State.Claims.{is_open, respects_index, upsert_claim, list_active_claims}
use luis_puentes.State.Claims.Exclusive.{respects_index-close}
use luis_puentes.Locks.{
  close_claim, drop_path, is_stale, recover_claim, recover_claims, recover_stale,
}
use luis_puentes.Locks.Acquire.{revise_claims_lem, append_event_lem}
use luis_puentes.Locks.Release.{Shuts, claim_key, closed, close_claim_lem, upsert-Covered}

-- An open claim of the workspace whose time is past.
abbrev pub is_left : String → ℕ → ArtifactClaim → Bool
is_left workspace current claim =
    claim.workspace == workspace && is_open claim && is_stale current claim

left-Shuts : (w : String) (current : ℕ) → Shuts (is_left w current)
left-Shuts w current c t = ground arith

-- The claim's lane key can be normalized.
abbrev pub IsKeyed : ArtifactClaim → Type 0
IsKeyed claim = (n : String) × (normalize_lane_key claim.lane_key ≡ ok n)

recover_claim_lem :
    (claim : ArtifactClaim) (s : Store)
    → respects_index s.claims ≡ true
    → IsKeyed claim
    → (t : Store) × (recover_claim claim s ≡ (ok (closed claim (s.now s.clock_reads)), t))
      × (t.claims ≡ upsert_claim (closed claim (s.now s.clock_reads)) s.claims)
unfolding recover_claim close_claim utcnow
recover_claim_lem claim s index (n, key) =
    let s1 : Store = record s {
      clock_reads = suc s.clock_reads;
      claims = upsert_claim (closed claim (s.now s.clock_reads)) s.claims;
    } in
    let (lanes, reads, revised) =
      revise_claims_lem claim.lane_key n (drop_path claim.artifact_path) s1 key in
    let s2 : Store = record s1 { lanes = lanes; clock_reads = reads } in
    let (events, logged) =
      append_event_lem "artifact.claim.recovered" (some "artifact") (some claim.artifact_path)
        (field "lane_key" (str claim.lane_key) Fields.end) s2 in
    (
      record s2 { events = events; clock_reads = suc reads; ids_drawn = suc s.ids_drawn },
      ground (arith, close_claim_lem claim s index, revised, logged),
      refl,
    )

-- The second list is the first with each claim closed, at some time.
abbrev pub AreClosed : List ArtifactClaim → List ArtifactClaim → Type 0
AreClosed [] [] = Unit
AreClosed (claim ∷ claims) (c ∷ cs) = ((now : ℕ) × (c ≡ closed claim now)) × AreClosed claims cs
AreClosed _ _ = ⊥

recover_each :
    (w : String) (current : ℕ) (todo : List ArtifactClaim) (s : Store)
    → respects_index s.claims ≡ true
    → All IsKeyed todo
    → Covered claim_key (is_left w current) todo s.claims
    → (recovered : List ArtifactClaim) × (t : Store) × (recover_claims todo s ≡ (ok recovered, t))
      × AreClosed todo recovered
      × (any (is_left w current) t.claims ≡ false)
unfolding recover_claims
recover_each w current [] s index keyed c =
    ([], s, refl, tt, Covered-end claim_key (is_left w current) s.claims c)
recover_each w current (x ∷ todo) s index keyed c =
    let (u, one, claims) = recover_claim_lem x s index keyed.0 in
    let (recovered, t, e, are_closed, none_left) =
      recover_each w current todo u
        (rw claims (respects_index-close s.claims x (s.now s.clock_reads) index)) keyed.1
        (rw claims (
          upsert-Covered (is_left w current) x (s.now s.clock_reads) todo s.claims
            (left-Shuts w current) c)) in
    (
      closed x (s.now s.clock_reads) ∷ recovered,
      t,
      ground (arith, one, e),
      ((s.now s.clock_reads, refl), are_closed),
      none_left,
    )

left-Covered :
    (current : ℕ) (s : Store)
    → Covered claim_key
        (is_left s.workspace current)
        (keep (is_stale current) (list_active_claims s))
        s.claims
unfolding list_active_claims
left-Covered current s =
    Covered-start claim_key (is_left s.workspace current)
      (keep (is_stale current) (list_active_claims s)) s.claims
      (λ r m h.
        keep-In (is_stale current) r (list_active_claims s)
          (sort_by-In (λ a b. leb a.acquired_at b.acquired_at) r _
            (keep-In (λ c. c.workspace == s.workspace && is_open c) r s.claims m (ground arith)))
          (ground arith))

-- On a store whose claims the unique index accepts, where the lane keys of the stale claims can be
-- normalized, the sweep for a given time succeeds with the open claims that were past it, each with the time of
-- its release set, and leaves none of them open.
pub recover_stale-done :
    (current : ℕ) (s : Store)
    → respects_index s.claims ≡ true
    → All IsKeyed (keep (is_stale current) (list_active_claims s))
    → let (result, t) = recover_stale (some current) s in
      ((recovered : List ArtifactClaim) × (result ≡ ok recovered)
        × AreClosed (keep (is_stale current) (list_active_claims s)) recovered)
      × (any (is_left s.workspace current) t.claims ≡ false)
unfolding recover_stale
recover_stale-done current s index keyed =
    let (recovered, t, swept, are_closed, none_left) =
      recover_each s.workspace current (keep (is_stale current) (list_active_claims s)) s index
        keyed (left-Covered current s) in
    ((recovered, ground (arith, swept), are_closed), ground (arith, swept, none_left))

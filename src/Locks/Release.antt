-- ===== src/Locks/Release.antt =====
-- What `release` does with the claims of a lane on an artifact.
use luis_puentes.Prelude.{
  ℕ, suc, String, ◌≡◌, refl, ◌∙◌, Bool, true, false, some, List, [], ◌∷◌, ◌==◌, ◌&&◌, keep, any,
  arith, eq_iff, Bool-cases, inl, inr, leb,
}
use luis_puentes.Prelude.Sweep.{
  keep-In, sort_by-In, Covered, Covered-start, Covered-step, Covered-end, Covered-absent,
  Covered-append,
}
use luis_puentes.Result.{ok}
use luis_puentes.Models.{ArtifactClaim, Fields, field, str}
use luis_puentes.Models.LaneKey.{normalize_lane_key}
use luis_puentes.State.{Store, ◌>>◌, utcnow, for_each}
use luis_puentes.State.Claims.{
  has_id, is_open, respects_index, overwrite_claim, upsert_claim, save_claim, list_active_claims,
}
use luis_puentes.State.Claims.Exclusive.{respects_index-close}
use luis_puentes.Locks.{close_claim, close_held, is_held, drop_path, note_release, release}
use luis_puentes.Locks.Acquire.{revise_claims_lem, append_event_lem}

-- An open claim of the lane on the artifact.
abbrev pub is_holding : String → String → String → ArtifactClaim → Bool
is_holding workspace path lane_key claim =
    claim.workspace == workspace && is_open claim && is_held path lane_key claim

abbrev pub claim_key : ArtifactClaim → String
claim_key claim = claim.claim_id

abbrev pub closed : ArtifactClaim → ℕ → ArtifactClaim
closed claim now = record claim { released_at = some now }

-- Closing succeeds on a table that the index accepts.
pub close_claim_lem :
    (claim : ArtifactClaim) (s : Store)
    → respects_index s.claims ≡ true
    → close_claim claim s ≡ (
      ok tt,
      record s {
        clock_reads = suc s.clock_reads;
        claims = upsert_claim (closed claim (s.now s.clock_reads)) s.claims;
      },
    )
unfolding close_claim utcnow save_claim
close_claim_lem claim s h =
    ground (arith, respects_index-close s.claims claim (s.now s.clock_reads))

-- A closed claim does not pass the test.
abbrev pub Shuts : (ArtifactClaim → Bool) → Type 0
Shuts bad = (c : ArtifactClaim) (t : ℕ) → bad (record c { released_at = some t }) ≡ false

holding-Shuts : (w path lane_key : String) → Shuts (is_holding w path lane_key)
holding-Shuts w path lane_key c t = ground arith

pub upsert-Covered :
    (bad : ArtifactClaim → Bool) (claim : ArtifactClaim) (now : ℕ) (todo rows : List ArtifactClaim)
    → Shuts bad
    → Covered claim_key bad (claim ∷ todo) rows
    → Covered claim_key bad todo (upsert_claim (closed claim now) rows)
unfolding upsert_claim overwrite_claim
upsert-Covered bad claim now todo rows shuts c =
    elim (Bool-cases (any (has_id claim.claim_id) rows)) [
      | inl e ↦ rw e (
          Covered-step claim_key bad claim todo rows (has_id claim.claim_id)
            (overwrite_claim (closed claim now))
            (λ r b i. ground (arith, eq_iff r.claim_id claim.claim_id))
            (λ r. shuts (record r { expires_at = claim.expires_at }) now) c)
      | inr e ↦ rw e (
          Covered-append claim_key bad (closed claim now) todo rows (shuts claim now)
            (Covered-absent claim_key bad claim todo rows e c))
    ]

-- The sweep over a list of claims: it succeeds, and no claim that it covers is left.
close_all :
    (w path lane_key : String) (todo : List ArtifactClaim) (s : Store)
    → respects_index s.claims ≡ true
    → Covered claim_key (is_holding w path lane_key) todo s.claims
    → (t : Store) × (for_each todo close_claim s ≡ (ok tt, t))
      × (any (is_holding w path lane_key) t.claims ≡ false)
unfolding for_each
close_all w path lane_key [] s h c =
    (s, refl, Covered-end claim_key (is_holding w path lane_key) s.claims c)
close_all w path lane_key (x ∷ todo) s h c =
    let s1 : Store = record s {
      clock_reads = suc s.clock_reads;
      claims = upsert_claim (closed x (s.now s.clock_reads)) s.claims;
    } in
    let (t, e, none_left) =
      close_all w path lane_key todo s1 (respects_index-close s.claims x (s.now s.clock_reads) h) (
        upsert-Covered (is_holding w path lane_key) x (s.now s.clock_reads) todo s.claims
          (holding-Shuts w path lane_key) c) in
    (t, rw (close_claim_lem x s h) e, none_left)

-- Skipping the claims that are not held is the same as going through those that are.
for_each-held :
    (path lane_key : String) (claims : List ArtifactClaim) (s : Store)
    → for_each claims (close_held path lane_key) s
      ≡ for_each (keep (is_held path lane_key) claims) close_claim s
unfolding for_each
for_each-held path lane_key [] s = refl
for_each-held path lane_key (x ∷ claims) s = elim (Bool-cases (is_held path lane_key x)) [
  | inl e ↦ rw e (λ i. (close_claim x >> (λ u. for_each-held path lane_key claims u i)) s)
  | inr e ↦ rw e (for_each-held path lane_key claims s)
]

held-Covered :
    (path lane_key : String) (s : Store)
    → Covered claim_key
        (is_holding s.workspace path lane_key)
        (keep (is_held path lane_key) (list_active_claims s))
        s.claims
unfolding list_active_claims
held-Covered path lane_key s =
    Covered-start claim_key (is_holding s.workspace path lane_key)
      (keep (is_held path lane_key) (list_active_claims s)) s.claims
      (λ r m h.
        keep-In (is_held path lane_key) r (list_active_claims s)
          (sort_by-In (λ a b. leb a.acquired_at b.acquired_at) r _
            (keep-In (λ c. c.workspace == s.workspace && is_open c) r s.claims m (ground arith)))
          (ground arith))

note_release_lem :
    (path lane_key n : String) (released : Bool) (s : Store)
    → normalize_lane_key lane_key ≡ ok n
    → ((note_release path lane_key released s).0 ≡ ok released)
      × ((note_release path lane_key released s).1.claims ≡ s.claims)
note_release_lem path lane_key n false s key = (refl, refl)
note_release_lem path lane_key n true s key =
    let (lanes, reads, revised) = revise_claims_lem lane_key n (drop_path path) s key in
    let (events, logged) =
      append_event_lem "artifact.claim.released" (some "artifact") (some path)
        (field "lane_key" (str lane_key) Fields.end)
        (record s { lanes = lanes; clock_reads = reads }) in
    (ground (arith, revised, logged), ground (arith, revised, logged))

-- On a store whose claims the unique index accepts, and for a lane key that can be normalized, `release`
-- succeeds. It returns whether the lane held an open claim on the artifact, and afterwards it holds none.
pub release-done :
    (path lane_key n : String) (s : Store)
    → respects_index s.claims ≡ true
    → normalize_lane_key lane_key ≡ ok n
    → ((release path lane_key s).0 ≡ ok (any (is_held path lane_key) (list_active_claims s)))
      × (any (is_holding s.workspace path lane_key) (release path lane_key s).1.claims ≡ false)
unfolding release
release-done path lane_key n s index key =
    let (t, swept, none_left) =
      close_all s.workspace path lane_key (keep (is_held path lane_key) (list_active_claims s)) s
        index (held-Covered path lane_key s) in
    let (result, claims) =
      note_release_lem path lane_key n (any (is_held path lane_key) (list_active_claims s)) t key in
    let all = for_each-held path lane_key (list_active_claims s) s ∙ swept in
    (ground (arith, all, result), ground (arith, all, claims, none_left))

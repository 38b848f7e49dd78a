-- ===== src/State/Claims/Exclusive.antt =====
-- The unique index on write claims: what it says of a table, and which changes keep it.
use luis_puentes.Prelude.{
  ℕ, ◌≤◌, String, ◌≡◌, refl, Bool, true, false, some, List, [], ◌∷◌, ◌++◌, ◌&&◌, arith, eq_iff,
  eq_refl, any, any-append, count, update_where, Bool-cases, inl, inr,
}
use luis_puentes.Models.{ArtifactClaim}
use luis_puentes.State.Claims.{has_id, is_write_lock, respects_index, overwrite_claim, upsert_claim}

count-zero :
    (p : ArtifactClaim → Bool) (rows : List ArtifactClaim) → any p rows ≡ false → count p rows ≡ 0
count-zero p [] h = refl
count-zero p (c ∷ rows) h = ground (arith, count-zero p rows)

-- A lock on an artifact is a lock on its own artifact.
same_key :
    (w p : String) (c : ArtifactClaim)
    → is_write_lock w p c ≡ true
    → (c.workspace ≡ w)
      × (c.artifact_path ≡ p)
      × (is_write_lock c.workspace c.artifact_path c ≡ true)
unfolding is_write_lock
same_key w p c h = ground (
  arith,
  eq_iff c.workspace w,
  eq_iff c.artifact_path p,
  eq_refl c.workspace,
  eq_refl c.artifact_path,
)

-- Two locks on one artifact are locks on each other's.
locks_agree :
    (w p : String) (c d : ArtifactClaim)
    → is_write_lock w p c ≡ true
    → is_write_lock w p d ≡ is_write_lock c.workspace c.artifact_path d
locks_agree w p c d h = let (a, b, _) = same_key w p c h in cc

any_agree :
    (w p : String) (c : ArtifactClaim) (rows : List ArtifactClaim)
    → is_write_lock w p c ≡ true
    → any (is_write_lock w p) rows ≡ any (is_write_lock c.workspace c.artifact_path) rows
any_agree w p c rows h = let (a, b, _) = same_key w p c h in cc

-- In a table that the index accepts, an artifact has one open write claim at most.
pub respects_index-count :
    (rows : List ArtifactClaim) (w p : String)
    → respects_index rows ≡ true
    → count (is_write_lock w p) rows ≤ 1
unfolding respects_index
respects_index-count [] w p h = omega arith
respects_index-count (c ∷ rows) w p h = elim (Bool-cases (is_write_lock w p c)) [
  | inl e ↦
      let own = (same_key w p c e).2 in
      let alone = any_agree w p c rows e in ground (arith, count-zero (is_write_lock w p) rows)
  | inr e ↦ ground (arith, respects_index-count rows w p)
]

-- A new row is accepted if it is no write lock, or the first on its artifact.
pub respects_index-append :
    (rows : List ArtifactClaim) (c : ArtifactClaim)
    → respects_index rows ≡ true
    → (is_write_lock c.workspace c.artifact_path c
        && any (is_write_lock c.workspace c.artifact_path) rows)
      ≡ false
    → respects_index (rows ++ c ∷ []) ≡ true
unfolding respects_index
respects_index-append [] c h n = ground arith
respects_index-append (d ∷ rows) c h n = ground (
  arith,
  any-append (is_write_lock d.workspace d.artifact_path) rows (c ∷ []),
  respects_index-append rows c,
  same_key d.workspace d.artifact_path c,
  locks_agree d.workspace d.artifact_path c d,
)

-- The rows of a table closed: those with the id get a time of release.
close_row : ArtifactClaim → ℕ → ArtifactClaim → ArtifactClaim
close_row c t = overwrite_claim (record c { released_at = some t })

lock-close_row :
    (w p : String) (c : ArtifactClaim) (t : ℕ) (d : ArtifactClaim)
    → is_write_lock w p (close_row c t d) ≡ false
unfolding is_write_lock close_row overwrite_claim
lock-close_row w p c t d = ground arith

any-close :
    (w p : String) (c : ArtifactClaim) (t : ℕ) (q : ArtifactClaim → Bool)
    (rows : List ArtifactClaim)
    → any (is_write_lock w p) rows ≡ false
    → any (is_write_lock w p) (update_where q (close_row c t) rows) ≡ false
any-close w p c t q [] h = refl
any-close w p c t q (d ∷ rows) h =
    ground (arith, any-close w p c t q rows, lock-close_row w p c t d)

update-close :
    (c : ArtifactClaim) (t : ℕ) (q : ArtifactClaim → Bool) (rows : List ArtifactClaim)
    → respects_index rows ≡ true
    → respects_index (update_where q (close_row c t) rows) ≡ true
unfolding respects_index
update-close c t q [] h = refl
update-close c t q (d ∷ rows) h = ground (
  arith,
  update-close c t q rows,
  any-close d.workspace d.artifact_path c t q rows,
  lock-close_row (close_row c t d).workspace (close_row c t d).artifact_path c t d,
)

-- Closing a claim never breaks the index.
pub respects_index-close :
    (rows : List ArtifactClaim) (c : ArtifactClaim) (t : ℕ)
    → respects_index rows ≡ true
    → respects_index (upsert_claim (record c { released_at = some t }) rows) ≡ true
unfolding upsert_claim close_row is_write_lock
respects_index-close rows c t h = ground (
  arith,
  update-close c t (has_id c.claim_id) rows,
  respects_index-append rows (record c { released_at = some t }),
)

-- A second write lock on an artifact is refused.
pub respects_index-refuses :
    (rows : List ArtifactClaim) (c : ArtifactClaim)
    → is_write_lock c.workspace c.artifact_path c ≡ true
    → any (is_write_lock c.workspace c.artifact_path) rows ≡ true
    → respects_index (rows ++ c ∷ []) ≡ false
unfolding respects_index
respects_index-refuses [] c own held = cc
respects_index-refuses (d ∷ rows) c own held =
    elim (Bool-cases (is_write_lock c.workspace c.artifact_path d)) [
      | inl e ↦ ground (
        arith,
        any-append (is_write_lock d.workspace d.artifact_path) rows (c ∷ []),
        same_key c.workspace c.artifact_path d e,
        locks_agree c.workspace c.artifact_path d c e,
      )
      | inr e ↦ ground (arith, respects_index-refuses rows c)
    ]

-- ===== src/State/Lanes/Exported.antt =====
-- What the lane registry file shows.
use luis_puentes.Prelude.{String, ◌≡◌, refl, none, some, List, [], ◌∷◌, map, All, length}
use luis_puentes.Models.{LaneRecord, get_field}
use luis_puentes.Models.Metadata.{get-pop_field}
use luis_puentes.State.{Store, Registry}
use luis_puentes.State.Lanes.{redact, list_lanes, export_lane_registry}

-- Neither a key nor secrets in the configuration.
abbrev pub HasNoSecret : LaneRecord → Type 0
HasNoSecret lane =
    (get_field lane.config "api_key" ≡ none) × (get_field lane.config "secrets" ≡ none)

redact-HasNoSecret : (hash : String) (lane : LaneRecord) → HasNoSecret (redact hash lane)
unfolding redact
redact-HasNoSecret hash lane = (simp get-pop_field, simp get-pop_field)

map-HasNoSecret :
    (hash : String) (lanes : List LaneRecord) → All HasNoSecret (map (redact hash) lanes)
map-HasNoSecret hash [] = tt
map-HasNoSecret hash (lane ∷ lanes) = (redact-HasNoSecret hash lane, map-HasNoSecret hash lanes)

length-map :
    (f : LaneRecord → LaneRecord) (lanes : List LaneRecord) → length (map f lanes) ≡ length lanes
length-map f [] = refl
length-map f (lane ∷ lanes) = rw (length-map f lanes)

-- The export writes a registry with one entry for each lane of the workspace, and no entry's
-- configuration holds an API key or secrets.
pub export_lane_registry-HasNoSecret :
    (s : Store)
    → (registry : Registry) × ((export_lane_registry s).1.registry ≡ some registry)
      × (length registry.lanes ≡ length (list_lanes s))
      × All HasNoSecret registry.lanes
unfolding export_lane_registry
export_lane_registry-HasNoSecret s = (
  _,
  refl,
  length-map (redact (s.workspace_hash s.workspace)) (list_lanes s),
  map-HasNoSecret (s.workspace_hash s.workspace) (list_lanes s),
)

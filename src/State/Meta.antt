-- ===== src/State/Meta.antt =====
-- The meta table of orchestrator/state.py, with the heartbeat of the service in it, and the table of
-- legacy imports. A value of the meta table is the JSON that is written there.
use luis_puentes.Prelude.{
  String, ◌≡◌, refl, Bool, Option, none, some, List, [], ◌∷◌, ◌++◌, ◌==◌, ◌&&◌, if◌then◌else◌, any,
  arith, eq_iff,
}
use luis_puentes.Result.{ok}
use luis_puentes.Models.{Json, Fields, obj}
use luis_puentes.State.{Store, M, LegacyImport, ◌>>=◌, pure, gets, modify, utcnow}

abbrev pub put_meta : String → Json → List (String × Json) → List (String × Json)
put_meta key value [] = (key, value) ∷ []
put_meta key value ((k, v) ∷ rows) =
    let rest = put_meta key value rows in if k == key then (k, value) ∷ rows else (k, v) ∷ rest

unfoldable pub set_meta : String → Json → M (Unit {0})
set_meta key value = modify (λ s. record s { meta = put_meta key value s.meta })

abbrev pub find_meta : String → List (String × Json) → Json → Json
find_meta key [] default = default
find_meta key ((k, v) ∷ rows) default =
    let rest = find_meta key rows default in if k == key then v else rest

unfoldable pub get_meta : String → Json → M Json
get_meta key default = gets (λ s. find_meta key s.meta default)

unfoldable pub set_service_heartbeat : Fields → M (Unit {0})
unfolding set_meta
set_service_heartbeat payload = set_meta "service_heartbeat" (obj payload)

abbrev pub as_object : Json → Option Fields
as_object (obj fs) = some fs
as_object _ = none

unfoldable pub get_service_heartbeat : M (Option Fields)
unfolding get_meta
get_service_heartbeat = do value ← get_meta "service_heartbeat" Json.null; pure (as_object value)

abbrev pub is_import : String → String → LegacyImport → Bool
is_import workspace import_id row = row.workspace == workspace && row.import_id == import_id

unfoldable pub has_legacy_import : String → Store → Bool
has_legacy_import import_id s = any (is_import s.workspace import_id) s.legacy_imports

-- `INSERT OR IGNORE`
unfoldable pub record_legacy_import : String → String → String → M (Unit {0})
unfolding has_legacy_import
record_legacy_import import_id source_name message_id = do
  imported_at ← utcnow
  modify (λ s. if has_legacy_import import_id s then s else record s {
    legacy_imports =
        s.legacy_imports
        ++ record {
          import_id = import_id;
          workspace = s.workspace;
          source_name = source_name;
          message_id = message_id;
          imported_at = imported_at;
        }
          ∷ [];
  })

find_meta-put :
    (key k : String) (value default : Json) (rows : List (String × Json))
    → find_meta k (put_meta key value rows) default
      ≡ (if key == k then value else find_meta k rows default)
find_meta-put key k value default [] = refl
find_meta-put key k value default ((j, v) ∷ rows) =
    ground (arith, eq_iff j key, eq_iff j k, eq_iff key k, find_meta-put key k value default rows)

-- What is set under a key of the meta table is what the key has from then on; the other keys have what they had.
pub get_meta-set :
    (key k : String) (value default : Json) (s : Store)
    → (get_meta k default (set_meta key value s).1).0
      ≡ (if key == k then ok value else (get_meta k default s).0)
unfolding get_meta set_meta
get_meta-set key k value default s = ground (arith, find_meta-put key k value default s.meta)

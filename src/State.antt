-- ===== src/State.antt =====
-- orchestrator/state.py: the tables of the control store and the calls that work on them.
-- A table is the list of its rows in the order of insertion. `now` and `fresh` are the environment's
-- answers: the n-th reading of the clock and the n-th `uuid4`. `registry` is the lane registry file as
-- it was last written, and `workspace_hash` the digest by which it names a workspace. `resolve_path` is
-- `Path.resolve` on the machine and `normcase` its `os.path.normcase`. `own_action_first` says whether a
-- walk of the set of an approval's own action and "write_files" begins with the former, and `show_json` is Python's `str` of a value that is no text.
pub mod Lanes
pub mod Tasks
pub mod Messages
pub mod Claims
pub mod Approvals
pub mod Recovery
pub mod Meta
pub mod Listings
pub mod Laws
pub mod Keeps
pub mod Returns
pub mod Frames
use luis_puentes.Prelude.{
  ℕ, suc, String, Bool, Option, none, some, List, [], ◌∷◌, ◌++◌, if◌then◌else◌,
}
use luis_puentes.Result.{Failure, Result, ok, raise}
use luis_puentes.Models.{
  Json, Fields, TaskEnvelope, MessageEnvelope, LaneRecord, ArtifactClaim, ApprovalRequest,
}

pub record Event : Type 0 where
  pub event_id : String
  pub workspace : String
  pub event_type : String
  pub entity_type : Option String
  pub entity_id : Option String
  pub payload : Fields
  pub created_at : ℕ

-- What a metric measures: a number of things, or the seconds from one time to another.
pub data Measure : Type 0 where
  amount : ℕ → Measure
  seconds_between : ℕ → ℕ → Measure

pub record Metric : Type 0 where
  pub metric_id : String
  pub workspace : String
  pub name : String
  pub value : Measure
  pub labels : Fields
  pub recorded_at : ℕ

-- What `export_lane_registry` writes.
pub record Registry : Type 0 where
  pub workspace_hash : String
  pub generated_at : ℕ
  pub lanes : List LaneRecord

-- A file of the old inbox that became a message.
pub record LegacyImport : Type 0 where
  pub import_id : String
  pub workspace : String
  pub source_name : String
  pub message_id : String
  pub imported_at : ℕ

-- What the coordinator object keeps outside the database.
pub record Memory : Type 0 where
  pub paused_lanes : List String
  pub processed_tasks : ℕ
  pub proposed_routes : ℕ
  pub coordination_held : ℕ

pub record Store : Type 0 where
  pub workspace : String
  pub lanes : List LaneRecord
  pub tasks : List TaskEnvelope
  pub messages : List MessageEnvelope
  pub claims : List ArtifactClaim
  pub approvals : List ApprovalRequest
  pub events : List Event
  pub metrics : List Metric
  pub meta : List (String × Json)
  pub legacy_imports : List LegacyImport
  pub registry : Option Registry
  pub memory : Memory
  pub now : ℕ → ℕ
  pub clock_reads : ℕ
  pub fresh : ℕ → String
  pub ids_drawn : ℕ
  pub workspace_hash : String → String
  pub resolve_path : String → String
  pub normcase : String → String
  pub own_action_first : String → Bool
  pub show_json : Json → String

-- A method of the store: what it wrote before it raises stays written.
abbrev pub M {ℓ} : Type ℓ → Type ℓ
M A = Store → Result A × Store

module _ {ℓ κ} {A : Type ℓ} {B : Type κ} where
  abbrev pub proceed : Result A → (A → M B) → M B
  proceed (ok a) f s = f a s
  proceed (raise e) f s = (raise e, s)

  infixl 5 ◌>>=◌ ◌>>◌
  abbrev pub ◌>>=◌ : M A → (A → M B) → M B
  ◌>>=◌ m f s = let (r, s') = m s in proceed r f s'

  abbrev pub ◌>>◌ : M A → M B → M B
  m >> n = m >>= λ _. n

module _ {ℓ} {A : Type ℓ} where
  abbrev pub pure : A → M A
  pure a s = (ok a, s)

  abbrev pub throw : Failure → M A
  throw e s = (raise e, s)

  abbrev pub lift : Result A → M A
  lift r s = (r, s)

  abbrev pub gets : (Store → A) → M A
  gets f s = (ok (f s), s)

abbrev pub modify : (Store → Store) → M (Unit {0})
modify f s = (ok tt, f s)

-- `for x in xs: f(x)`
unfoldable pub for_each {ℓ} : {A : Type ℓ} → List A → (A → M (Unit {0})) → M (Unit {0})
for_each [] f = pure tt
for_each (x ∷ xs) f = let rest = for_each xs f in do f x; rest

-- `if x: f(x)`
abbrev pub when_some {ℓ} : {A : Type ℓ} → Option A → (A → M (Unit {0})) → M (Unit {0})
when_some none f = pure tt
when_some (some x) f = f x

-- `utcnow()`, `utcnow_iso()`
unfoldable pub utcnow : M ℕ
utcnow s = (ok (s.now s.clock_reads), record s { clock_reads = suc s.clock_reads })

-- `str(uuid4())`
unfoldable pub uuid4 : M String
uuid4 s = (ok (s.fresh s.ids_drawn), record s { ids_drawn = suc s.ids_drawn })

unfoldable pub append_event : String → Option String → Option String → Fields → M String
unfolding utcnow uuid4
append_event event_type entity_type entity_id payload = do
  event_id ← uuid4
  created_at ← utcnow
  workspace ← gets (λ s. s.workspace)
  modify (λ s. record s {
    events =
        s.events
        ++ record {
          event_id = event_id;
          workspace = workspace;
          event_type = event_type;
          entity_type = entity_type;
          entity_id = entity_id;
          payload = payload;
          created_at = created_at;
        }
          ∷ [];
  })
  pure event_id

unfoldable pub record_metric : String → Measure → Fields → M String
unfolding utcnow uuid4
record_metric name value labels = do
  metric_id ← uuid4
  recorded_at ← utcnow
  workspace ← gets (λ s. s.workspace)
  modify (λ s. record s {
    metrics =
        s.metrics
        ++ record {
          metric_id = metric_id;
          workspace = workspace;
          name = name;
          value = value;
          labels = labels;
          recorded_at = recorded_at;
        }
          ∷ [];
  })
  pure metric_id

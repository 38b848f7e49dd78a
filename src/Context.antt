-- ===== src/Context.antt =====
-- orchestrator/context.py: what an agent is told. A file of specs/ is a text, if it is there; what the
-- text means as JSON, and the text of a JSON value, are parameters (json.loads, json.dumps). The size of an
-- envelope is that of its JSON text in UTF-8.
pub mod Prompt
use luis_puentes.Prelude.{
  ℕ, String, Bool, true, false, Option, none, some, List, [], ◌∷◌, ◌++◌, concat, map, keep, ◌==◌,
  ◌&&◌, if◌then◌else◌,
}
use luis_puentes.Result.{Result, ok, raise, value_error, attribute_error, file_not_found}
use luis_puentes.Models.{
  Json, Fields, field, null, num, str, arr, obj, truthy, LaneRecord, TaskEnvelope, TaskStatus,
  get_field,
}
use luis_puentes.Models.Metadata.{list_of, of_list}
use luis_puentes.State.{M, ◌>>=◌, pure, lift, gets, utcnow}
use luis_puentes.State.Tasks.{list_all_tasks}
use luis_puentes.State.Claims.{list_active_claims}
use luis_puentes.Policy.{Policy}

-- The JSON library and the files of specs/.
pub record Documents : Type 0 where
  pub loads : String → Option Json
  pub dumps : Json → String
  pub json_size : Json → ℕ
  pub spec_text : String → Option String

pub record ContextEnvelope : Type 0 where
  pub workspace : String
  pub lane_key : String
  pub objective : Json
  pub canonical_sources : List Json
  pub latest_decisions : List Json
  pub open_work : List Json
  pub artifact_claims : List Json
  pub allowed_actions : List Json
  pub policy_ids : List Json
  pub spec_id : Option String
  pub generated_at : ℕ

abbrev pub text_or_null : Option String → Json
text_or_null none = null
text_or_null (some s) = str s

abbrev pub array : List Json → Json
array items = arr (of_list items)

abbrev pub texts : List String → List Json
texts = map str

-- `asdict(envelope)`
abbrev pub envelope_to_dict : ContextEnvelope → Fields
envelope_to_dict e = field "workspace" (str e.workspace) (
    field "lane_key" (str e.lane_key) (
      field "objective" e.objective (
        field "canonical_sources" (array e.canonical_sources) (
          field "latest_decisions" (array e.latest_decisions) (
            field "open_work" (array e.open_work) (
              field "artifact_claims" (array e.artifact_claims) (
                field "allowed_actions" (array e.allowed_actions) (
                  field "policy_ids" (array e.policy_ids) (
                    field "spec_id" (text_or_null e.spec_id)
                      (field "generated_at" (num e.generated_at) Fields.end))))))))))

-- A specification that is no object has no `get`.
unfoldable pub load_spec : Documents → String → Result Fields
load_spec docs spec_id = elim (docs.spec_text spec_id) [
  | none ↦ raise (file_not_found (concat ("Execution spec not found: " ∷ spec_id ∷ [])))
  | some text ↦ elim (docs.loads text) [
    | none ↦ raise (value_error "the specification is not JSON")
    | some (obj fs) ↦ ok fs
    | some _ ↦ raise attribute_error
  ]
]

-- A text that is there and not empty.
abbrev pub given : Option String → Option String
given none = none
given (some s) = if s == "" then none else some s

-- `spec_id or (task.spec_id if task else None)`
abbrev pub resolve_spec : Option String → Option TaskEnvelope → Option String
resolve_spec spec_id task = elim (given spec_id) [
  | some id ↦ some id
  | none ↦ elim task [ none ↦ none | some t ↦ t.spec_id ]
]

abbrev pub spec_or_empty : Documents → Option String → Result Fields
spec_or_empty docs spec_id = elim (given spec_id) [
  | none ↦ ok Fields.end
  | some id ↦ load_spec docs id
]

-- `spec.get(section, {}).get(key, default)` as a list
abbrev pub section_list : Fields → String → String → List Json → Result (List Json)
section_list spec section key default = elim (get_field spec section) [
  | none ↦ ok default
  | some (obj fs) ↦ elim (get_field fs key) [ none ↦ ok default | some v ↦ list_of v ]
  | some _ ↦ raise attribute_error
]

-- `policy_ids_for_spec(spec) if spec else list_policy_ids()`
abbrev pub policy_ids_of : List Policy → Fields → Result (List Json)
policy_ids_of policies Fields.end = ok (map (λ p. str p.id) policies)
policy_ids_of policies (Fields.field k v fs) = elim (get_field (Fields.field k v fs) "policy_ids") [
  | none ↦ ok []
  | some ids ↦ list_of ids
]

abbrev pub is_open_work : TaskStatus → Bool
is_open_work TaskStatus.queued = true
is_open_work TaskStatus.running = true
is_open_work TaskStatus.paused = true
is_open_work _ = false

abbrev pub default_actions : List Json
default_actions = texts ("read" ∷ "summarize" ∷ "validate" ∷ [])

-- `task.objective if task else spec.get("objective", lane.lane_key)`
abbrev pub objective_of : Option TaskEnvelope → Fields → LaneRecord → Json
objective_of (some task) spec lane = str task.objective
objective_of none spec lane = elim (get_field spec "objective") [
  | none ↦ str lane.lane_key
  | some v ↦ v
]

unfoldable pub build :
    Documents → List Policy → LaneRecord → Option TaskEnvelope → Option String → M ContextEnvelope
build docs policies lane task spec_id = do
  let resolved = resolve_spec spec_id task
  spec ← lift (spec_or_empty docs resolved)
  open_tasks ← gets (λ s.
      map (λ t. str t.objective)
        (keep (λ t. t.lane_key == lane.lane_key && is_open_work t.status) (list_all_tasks s)))
  claims ← gets (λ s.
      map (λ c. str c.artifact_path)
        (keep (λ c. c.lane_key == lane.lane_key) (list_active_claims s)))
  policy_ids ← lift (policy_ids_of policies spec)
  canonical_sources ← lift (section_list spec "evidence" "canonical_sources" [])
  latest_decisions ← lift (section_list spec "evidence" "latest_decisions" [])
  allowed_actions ← lift (section_list spec "controls" "allowed_actions" default_actions)
  generated_at ← utcnow
  pure (record {
    workspace = lane.workspace;
    lane_key = lane.lane_key;
    objective = objective_of task spec lane;
    canonical_sources = canonical_sources;
    latest_decisions = latest_decisions;
    open_work = open_tasks;
    artifact_claims = claims;
    allowed_actions = allowed_actions;
    policy_ids = policy_ids;
    spec_id = resolved;
    generated_at = generated_at;
  })

abbrev pub error_if : Bool → String → List String
error_if true message = message ∷ []
error_if false message = []

abbrev pub is_empty : List Json → Bool
is_empty [] = true
is_empty (x ∷ xs) = false

unfoldable pub validate : ContextEnvelope → List String
validate e =
    error_if (e.workspace == "") "workspace is required"
    ++ (error_if (e.lane_key == "") "lane_key is required"
        ++ (error_if (if truthy e.objective then false else true) "objective is required"
            ++ error_if (is_empty e.policy_ids) "at least one policy id is required"))

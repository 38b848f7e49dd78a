-- ===== src/Agents.antt =====
-- orchestrator/agents.py: the agents of a lane. The runtime that hosts agents is an interface: what
-- it answers may depend on the store as it is at the call, and it does not write there by itself.
pub mod Frames
use luis_puentes.Prelude.{
  joined, ℕ, String, Bool, Option, none, some, List, [], ◌∷◌, ◌++◌, concat, ◌==◌, if◌then◌else◌,
}
use luis_puentes.Result.{Failure, Result, ok, raise, value_error}
use luis_puentes.Models.{
  Json, Fields, field, null, str, FailureKind, LaneRecord, LaneStatus, truthy, get_field, set_field,
}
use luis_puentes.Models.Metadata.{dict_of, list_of}
use luis_puentes.Models.LaneKey.{normalize_lane_key}
use luis_puentes.State.{Store, M, ◌>>=◌, ◌>>◌, pure, throw, lift, gets, utcnow, append_event}
use luis_puentes.State.Lanes.{ensure_lane, upsert_lane}
use luis_puentes.Policy.{Policy}
use luis_puentes.Rotation.{reset}
use luis_puentes.Context.{Documents, ContextEnvelope, given, text_or_null, build, validate}

pub record AgentConfig : Type 0 where
  pub model : Json
  pub api_key : Json
  pub cwd : Json
  pub mcp_servers : Fields
  pub sandbox : Fields
  pub policies : List Json
  pub setting_sources : List Json
  pub tools : List Json
  pub disallowed_tools : List Json

pub record RunOutcome : Type 0 where
  pub agent_id : String
  pub run_id : String
  pub status : String
  pub failure_kind : Option FailureKind
  pub error_message : Option String
  pub result_text : Option String

-- The runtime, and the machine around it: JSON, files, and Python's `str` of an exception. A run
-- reports its ids as it starts them.
pub record Host : Type 0 where
  pub docs : Documents
  pub create_agent : AgentConfig → ContextEnvelope → Store → Result String
  pub resume_agent : String → AgentConfig → ContextEnvelope → Store → Result String
  pub run_task : String → String → Option String → Store → List String × Result RunOutcome
  pub dispose_agent : String → Store → Result (Unit {0})
  pub describe : Failure → String
  pub handover_root : String
  pub write_handover : String → Option String → String → ℕ → Store → Result (Unit {0})

-- `data.get(key)`
abbrev pub value_or_null : Fields → String → Json
value_or_null fs key = elim (get_field fs key) [ none ↦ null | some v ↦ v ]

-- `dict(data.get(key) or {})`
abbrev pub dict_or_empty : Fields → String → Result Fields
dict_or_empty fs key = let v = value_or_null fs key in if truthy v then dict_of v else ok Fields.end

-- `list(data.get(key) or [])`
abbrev pub list_or_empty : Fields → String → Result (List Json)
list_or_empty fs key = let v = value_or_null fs key in if truthy v then list_of v else ok []

-- `{**base, **extra}`
pub merge : Fields → Fields → Fields
merge base Fields.end = base
merge base (Fields.field k v fs) = merge (set_field base k v) fs

-- `AgentConfig.from_dict(data)`, for data that is not empty
unfoldable pub config_from : Fields → M AgentConfig
config_from fs = do
  mcp_servers ← lift (dict_or_empty fs "mcp_servers")
  sandbox ← lift (dict_or_empty fs "sandbox")
  policies ← lift (list_or_empty fs "policies")
  setting_sources ← lift (list_or_empty fs "setting_sources")
  tools ← lift (list_or_empty fs "tools")
  disallowed_tools ← lift (list_or_empty fs "disallowed_tools")
  pure (record {
    model = elim (get_field fs "model") [ none ↦ str "composer-2.5" | some v ↦ v ];
    api_key = value_or_null fs "api_key";
    cwd = value_or_null fs "cwd";
    mcp_servers = mcp_servers;
    sandbox = sandbox;
    policies = policies;
    setting_sources = setting_sources;
    tools = tools;
    disallowed_tools = disallowed_tools;
  })

abbrev pub model_or_default : Option String → String
model_or_default model = elim (given model) [ none ↦ "composer-2.5" | some m ↦ m ]

unfoldable pub lane_config : LaneRecord → M AgentConfig
unfolding merge
lane_config lane = config_from (
    merge
      (field "model" (str (model_or_default lane.model))
        (field "cwd" (str lane.workspace) Fields.end))
      lane.config)

-- A call of the runtime, which answers by the store.
abbrev pub ask {ℓ} : {A : Type ℓ} → (Store → Result A) → M A
ask f s = (f s, s)

abbrev pub check_envelope : List String → M (Unit {0})
check_envelope [] = pure tt
check_envelope (e ∷ errors) = throw (value_error (joined "; " (e ∷ errors)))

-- The lane with a live agent.
abbrev pub activated : LaneRecord → String → ℕ → ℕ → LaneRecord
activated lane agent_id last_activity updated_at = record lane {
  current_agent_id = some agent_id;
  status = LaneStatus.active;
  last_activity = some last_activity;
  updated_at = updated_at;
}

-- What a call that gives a lane its agent returns.
abbrev pub Started : Type 0
Started = LaneRecord × String × ContextEnvelope

module _ (host : Host) (policies : List Policy) where
  unfoldable pub keep_agent : String → LaneRecord → String → ContextEnvelope → String → M Started
  keep_agent lane_key lane agent_id envelope event_type = do
    last_activity ← utcnow
    updated_at ← utcnow
    let live = activated lane agent_id last_activity updated_at
    upsert_lane live
    append_event event_type (some "lane") (some lane_key)
        (field "agent_id" (str agent_id) Fields.end)
    pure (live, agent_id, envelope)

  unfoldable pub create :
      String → String → Option String → Option String → Option String → M Started
  unfolding keep_agent
  create lane_key objective spec_id owner model = do
    key ← lift (normalize_lane_key lane_key)
    lane ← ensure_lane key owner model
    built ← build host.docs policies lane none spec_id
    let envelope : ContextEnvelope = record built { objective = str objective }
    check_envelope (validate envelope)
    config ← lane_config lane
    agent_id ← ask (host.create_agent config envelope)
    keep_agent key lane agent_id envelope "agent.created"

  -- `resume`, for a lane that has an agent
  unfoldable pub resume_live :
      String → LaneRecord → String → Option String → Option String → M Started
  resume_live key lane prior objective spec_id = do
    built ← build host.docs policies lane none spec_id
    let envelope : ContextEnvelope = elim (given objective) [
      | none ↦ built
      | some o ↦ record built { objective = str o }
    ]
    config ← lane_config lane
    agent_id ← ask (host.resume_agent prior config envelope)
    keep_agent key lane agent_id envelope "agent.resumed"

  unfoldable pub resume : String → Option String → Option String → M Started
  resume lane_key objective spec_id = do
    key ← lift (normalize_lane_key lane_key)
    lane ← ensure_lane key none none
    elim (given lane.current_agent_id) [
      | none ↦
          create key (elim (given objective) [ none ↦ lane.lane_key | some o ↦ o ]) spec_id none
            none
      | some prior ↦ resume_live key lane prior objective spec_id
    ]

  -- The prior agent is disposed of, and remembered.
  abbrev pub retire_prior : LaneRecord → M (List String)
  retire_prior lane = elim (given lane.current_agent_id) [
    | none ↦ pure lane.prior_agent_ids
    | some prior ↦ do ask (host.dispose_agent prior); pure (lane.prior_agent_ids ++ prior ∷ [])
  ]

  abbrev pub handover_path : String → String → String
  handover_path workspace_hash lane_key =
      concat (host.handover_root ∷ "/" ∷ workspace_hash ∷ "_" ∷ lane_key ∷ ".md" ∷ [])

  unfoldable pub write_handover : String → Option String → String → M String
  write_handover lane_key prior objective = do
    path ← gets (λ s. handover_path (s.workspace_hash s.workspace) lane_key)
    generated_at ← utcnow
    ask (host.write_handover path prior objective generated_at)
    pure path

  abbrev pub rotating : LaneRecord → List String → String → ℕ → ℕ → LaneRecord
  rotating lane prior_agent_ids path since updated_at =
      record (reset
        (record lane {
          prior_agent_ids = prior_agent_ids;
          handover_path = some path;
          status = LaneStatus.rotating;
          context_health_score = 100;
        })
        since) { updated_at = updated_at }

  unfoldable pub rotate : String → String → Option String → String → M Started
  unfolding reset
  rotate lane_key objective spec_id reason = do
    key ← lift (normalize_lane_key lane_key)
    lane ← ensure_lane key none none
    prior_agent_ids ← retire_prior lane
    path ← write_handover key lane.current_agent_id objective
    since ← utcnow
    updated_at ← utcnow
    upsert_lane (rotating lane prior_agent_ids path since updated_at)
    started ← create key objective spec_id lane.owner lane.model
    append_event "agent.rotated" (some "lane") (some key) (
        field "old_agent_id" (text_or_null lane.current_agent_id)
          (field "new_agent_id" (str started.1) (field "reason" (str reason) Fields.end)))
    pure started

  unfoldable pub dispose : String → M LaneRecord
  dispose lane_key = do
    key ← lift (normalize_lane_key lane_key)
    lane ← ensure_lane key none none
    prior_agent_ids ← retire_prior lane
    updated_at ← utcnow
    let retired : LaneRecord = record lane {
      prior_agent_ids = prior_agent_ids;
      current_agent_id = elim (given lane.current_agent_id) [
        | none ↦ lane.current_agent_id
        | some a ↦ none
      ];
      status = LaneStatus.retired;
      updated_at = updated_at;
    }
    upsert_lane retired
    append_event "agent.disposed" (some "lane") (some key) Fields.end
    pure retired

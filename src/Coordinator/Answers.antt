-- ===== src/Coordinator/Answers.antt =====
-- The answer of an agent: `_strip_code_fence` and `_apply_agent_response` of orchestrator/coordinator.py.
-- `json.loads` is a parameter: what a text means as JSON, if anything.
pub mod Fence
pub mod Mail
pub mod Frames
use luis_puentes.Prelude.{
  ℕ, ◌-◌, String, Bool, true, false, Option, none, some, List, [], ◌∷◌, ◌++◌, ◌==◌, ◌||◌, take,
  take_chars, length, contains, if◌then◌else◌,
}
use luis_puentes.Result.{Result, ok, raise, type_error}
use luis_puentes.Models.{
  Json, Items, Fields, field, bool, num, str, arr, obj, TaskEnvelope, get_field, set_field,
}
use luis_puentes.Models.Metadata.{to_list, of_list}
use luis_puentes.State.{M, ◌>>=◌, ◌>>◌, pure, lift}
use luis_puentes.Coordinator.Inbox.Proposals.{enqueue_agent_proposal}
use luis_puentes.Coordinator.Answers.Fence.{strip_code_fence}

pub record Answer : Type 0 where
  pub summary : String
  pub status : String
  pub evidence : List String
  pub proposals : List Json

-- `all(isinstance(item, str) for item in items)`, with the texts
abbrev pub texts_of : List Json → Option (List String)
texts_of [] = some []
texts_of (str s ∷ xs) =
    let rest = texts_of xs in elim rest [ none ↦ none | some ts ↦ some (s ∷ ts) ]
texts_of (_ ∷ xs) = none

-- `status in valid_statuses`; a list or an object is not hashable.
abbrev pub valid_status : Option Json → Result (Option String)
valid_status (some (str s)) =
    if s == "completed" || s == "partial" || s == "blocked" || s == "failed"
    then ok (some s)
    else ok none
valid_status (some (arr items)) = raise type_error
valid_status (some (obj fs)) = raise type_error
valid_status _ = ok none

abbrev pub read_lists : String → String → Option Json → Option Json → Option Answer
read_lists summary status (some (arr evidence)) (some (arr proposals)) =
    elim (texts_of (to_list evidence)) [
      | none ↦ none
      | some texts ↦ some (record {
        summary = summary;
        status = status;
        evidence = texts;
        proposals = to_list proposals;
      })
    ]
read_lists summary status _ _ = none

abbrev pub read_fields : Fields → Option Json → Result (Option Answer)
read_fields fs (some (str summary)) = elim (valid_status (get_field fs "status")) [
  | raise e ↦ raise e
  | ok none ↦ ok none
  | ok (some status) ↦
      ok (read_lists summary status (get_field fs "evidence") (get_field fs "proposed_messages"))
]
read_fields fs _ = ok none

-- The answer, if it has the shape that is asked for.
unfoldable pub read_answer : Json → Result (Option Answer)
read_answer (obj fs) = read_fields fs (get_field fs "summary")
read_answer _ = ok none

-- `for pointer in pointers: if pointer not in evidence: evidence.append(pointer)`
abbrev pub add_pointers : List String → List String → List String
add_pointers evidence [] = evidence
add_pointers evidence (p ∷ ps) =
    add_pointers (if contains evidence p then evidence else evidence ++ p ∷ []) ps

abbrev pub add_id : Option String → List String → List String
add_id none ids = ids
add_id (some id) ids = if id == "" then ids else id ∷ ids

-- The ids of the messages that the proposals became.
unfoldable pub enqueue_proposals : TaskEnvelope → List Json → M (List String)
enqueue_proposals task [] = pure []
enqueue_proposals task (proposal ∷ proposals) =
    let rest = enqueue_proposals task proposals in
    do id ← enqueue_agent_proposal task proposal; ids ← rest; pure (add_id id ids)

abbrev pub strs : List String → Json
strs texts = arr (of_list (json_texts texts))
  where
    json_texts : List String → List Json
    json_texts [] = []
    json_texts (t ∷ ts) = str t ∷ json_texts ts

abbrev pub bounded : List String → List String
bounded [] = []
bounded (t ∷ ts) = take_chars 2048 t ∷ bounded ts

-- The task with `agent_response` in its metadata.
abbrev pub with_response : TaskEnvelope → Fields → TaskEnvelope
with_response task response = record task {
  metadata = set_field task.metadata "agent_response" (obj response);
}

abbrev pub unstructured : TaskEnvelope → String → TaskEnvelope
unstructured task text =
    with_response task
      (field "structured" (bool false) (field "summary" (str (take_chars 20000 text)) Fields.end))

unfoldable pub apply_answer : TaskEnvelope → Answer → M TaskEnvelope
apply_answer task a = do
  let pointers = bounded (take 20 a.evidence)
  let noted : TaskEnvelope = record task { evidence = add_pointers task.evidence pointers }
  ids ← enqueue_proposals noted (take 8 a.proposals)
  pure (
      with_response noted (
        field "structured" (bool true) (
          field "summary" (str (take_chars 20000 a.summary)) (
            field "status" (str a.status) (
              field "evidence" (strs pointers) (
                field "proposed_message_ids" (strs ids)
                  (field "rejected_over_limit" (num (length a.proposals - 8)) Fields.end)))))))

abbrev pub apply_payload : TaskEnvelope → String → Option Json → M TaskEnvelope
apply_payload task text none = pure (unstructured task text)
apply_payload task text (some payload) = do
  found ← lift (read_answer payload)
  elim found [ none ↦ pure (unstructured task text) | some a ↦ apply_answer task a ]

-- The task after its agent's answer.
unfoldable pub apply_agent_response :
    (String → Option Json) → TaskEnvelope → Option String → M TaskEnvelope
apply_agent_response loads task none = pure task
apply_agent_response loads task (some text) =
    if text == "" then pure task else apply_payload task text (loads (strip_code_fence text))

-- ===== src/Legacy.antt =====
-- orchestrator/legacy.py: the files of an old inbox, which a mapping sends to lanes as messages.
pub mod Once
use luis_puentes.Prelude.{
  ℕ, String, Bool, true, false, Option, none, some, List, [], ◌∷◌, concat, ◌==◌, contains, not,
  if◌then◌else◌, map,
}
use luis_puentes.Result.{Failure, Result, ok, raise, value_error, file_not_found}
use luis_puentes.Models.{
  Json, Fields, field, str, bool, obj, default_permissions, MessageEnvelope, get_field,
}
use luis_puentes.State.{Store, M, ◌>>=◌, ◌>>◌, pure, lift, gets}
use luis_puentes.State.Meta.{has_legacy_import, record_legacy_import}
use luis_puentes.Coordinator.Inbox.{MessageRequest, inbox_send}

pub record InboxFile : Type 0 where
  pub filename : String
  pub size_bytes : ℕ
  pub modified_ns : ℕ

-- The folder of the inbox: its Markdown files in the order of their names, and what Python's paths make of
-- a name or a path.
pub record Folder : Type 0 where
  pub inventory : List InboxFile
  pub is_flat : String → Bool
  pub repr : String → String
  pub normal_path : String → String
  pub source_of : String → String
  pub is_inside : String → Bool
  pub digest : String → String

-- An entry of the mapping that passed the checks.
pub record Valid : Type 0 where
  pub filename : String
  pub target : String
  pub source : String
  pub import_id : String

pub record Imported : Type 0 where
  pub filename : String
  pub message_id : String
  pub target : String
  pub import_id : String

pub record Summary : Type 0 where
  pub inventory : List InboxFile
  pub imported : List Imported
  pub skipped : List String

abbrev pub refuse {ℓ} : {A : Type ℓ} → String → String → String → Result A
refuse before name after = raise (value_error (concat (before ∷ name ∷ after ∷ [])))

abbrev pub text_at : Fields → String → Option String
text_at fs key = elim (get_field fs key) [ none ↦ none | some (str s) ↦ some s | some _ ↦ none ]

abbrev pub check_place : Folder → String → String → String → String → Result Valid
check_place folder workspace filename mapped target =
    if not (folder.normal_path mapped == folder.normal_path workspace)
    then refuse "Legacy mapping workspace differs from coordinator: " filename ""
    else if not (folder.is_inside filename)
    then refuse "Legacy mapping escaped inbox root: " filename ""
    else ok (record {
      filename = filename;
      target = target;
      source = folder.source_of filename;
      import_id = folder.digest (folder.source_of filename);
    })

abbrev pub check_texts : Folder → String → String → Option String → Option String → Result Valid
check_texts folder workspace filename (some mapped) (some target) =
    check_place folder workspace filename mapped target
check_texts folder workspace filename _ _ =
    refuse "Route for " filename " requires workspace and target"

abbrev pub check_route : Folder → String → String → Json → Result Valid
check_route folder workspace filename (obj fs) =
    check_texts folder workspace filename (text_at fs "workspace") (text_at fs "target")
check_route folder workspace filename _ = refuse "Route for " filename " must be an object"

abbrev pub check_entry : Folder → String → String → Json → Result Valid
check_entry folder workspace filename route =
    if not (folder.is_flat filename)
    then refuse "Legacy mapping filename is not flat: " (folder.repr filename) ""
    else if not (contains (map (λ f. f.filename) folder.inventory) filename)
    then raise (file_not_found (concat ("Legacy inbox file not found: " ∷ filename ∷ [])))
    else check_route folder workspace filename route

-- All entries are checked before the first is imported.
unfoldable pub check_mapping : Folder → String → Fields → Result (List Valid)
check_mapping folder workspace Fields.end = ok []
check_mapping folder workspace (Fields.field filename route fs) =
    let rest = check_mapping folder workspace fs in
    elim (check_entry folder workspace filename route) [
      | raise e ↦ raise e
      | ok v ↦ elim rest [ raise e ↦ raise e | ok vs ↦ ok (v ∷ vs) ]
    ]

abbrev pub reference : Valid → MessageRequest
reference v = record {
  target = v.target;
  objective = concat ("Legacy inbox reference: " ∷ v.filename ∷ []);
  sender = "legacy-inbox-import";
  permissions = default_permissions;
  reply_to = none;
  evidence = v.source ∷ [];
  ttl_seconds = none;
  metadata =
      field "legacy_import_id" (str v.import_id) (
        field "legacy_filename" (str v.filename)
          (field "content_imported" (bool false) Fields.end));
  executable = false;
}

abbrev pub import_new : Valid → M Imported
import_new v = do
  message ← inbox_send (reference v)
  record_legacy_import v.import_id v.filename message.message_id
  pure (record {
    filename = v.filename;
    message_id = message.message_id;
    target = v.target;
    import_id = v.import_id;
  })

-- The imported and the skipped entries; those are skipped that were imported before.
unfoldable pub import_each : List Valid → M (List Imported × List String)
import_each [] = pure ([], [])
import_each (v ∷ vs) =
    let rest = import_each vs in
    do
      known ← gets (has_legacy_import v.import_id)
      if known
          then (do others ← rest; pure (others.0, v.filename ∷ others.1))
          else (do new ← import_new v; others ← rest; pure (new ∷ others.0, others.1))

abbrev pub fields_or_raise : Json → Result Fields
fields_or_raise (obj fs) = ok fs
fields_or_raise _ = raise (value_error "Legacy mapping must be a JSON object")

unfoldable pub audit_or_import_legacy_inbox : Folder → Option Json → M Summary
audit_or_import_legacy_inbox folder none =
    pure (record { inventory = folder.inventory; imported = []; skipped = [] })
audit_or_import_legacy_inbox folder (some mapping) = do
  entries ← lift (fields_or_raise mapping)
  workspace ← gets (λ s. s.workspace)
  valid ← lift (check_mapping folder workspace entries)
  outcome ← import_each valid
  pure (record { inventory = folder.inventory; imported = outcome.0; skipped = outcome.1 })

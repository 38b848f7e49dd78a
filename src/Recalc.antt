-- ===== src/Recalc.antt =====
-- The recalculation of a workbook on a private copy: src/xllib/recalc/api.py and src/xllib/recalc/backend.py of
-- excel-library. A backend is third-party code that drives a spreadsheet engine: whether it is available, and
-- what it makes of the bytes of a file, with its exception if it raises one. The temporary directories of the
-- machine are a list of names with the files in each.
pub mod Slug
pub mod Chain
pub mod Closed
pub mod Cache
use luis_puentes.Prelude.{
  ℕ, suc, String, Bool, true, false, Option, none, some, List, [], ◌∷◌, ◌++◌, ◌==◌, ◌&&◌, ◌||◌, not,
  if◌then◌else◌, concat, joined, keep, map, any, eqb, leb, ltb, contains,
}
use luis_puentes.Recalc.Slug.{slug}
use luis_puentes.Result.{
  Failure, Result, ok, raise, value_error, file_not_found, runtime_error, recalc_failed,
}

-- An exception of a backend: its message and the name of its type.
pub record Raised : Type 0 where
  pub message : String
  pub type_name : String

pub record Availability : Type 0 where
  pub available : Bool
  pub reason : String

pub record Backend : Type 0 where
  pub name : String
  pub available : Availability
  pub recalculate : String → String × Option Raised

pub data Outcome : Type 0 where
  succeeded unavailable failed : Outcome

pub record BackendAttempt : Type 0 where
  pub backend : String
  pub outcome : Outcome
  pub detail : String

abbrev pub outcome_text : Outcome → String
outcome_text Outcome.succeeded = "succeeded"
outcome_text Outcome.unavailable = "unavailable"
outcome_text Outcome.failed = "failed"

unfoldable pub show_attempt : BackendAttempt → String
show_attempt a =
    let summary = concat (a.backend ∷ " " ∷ outcome_text a.outcome ∷ []) in
    if a.detail == "" then summary else concat (summary ∷ " (" ∷ a.detail ∷ ")" ∷ [])

-- What the code calls of Python: the text of a number, the blanks around a text, and the parts of a path.
pub record Python : Type 0 where
  pub show_number : ℕ → String
  pub strip : String → String
  pub name_of : String → String
  pub resolve : String → String

unfoldable pub describe : Python → Raised → String
describe py e = let message = py.strip e.message in if message == "" then e.type_name else message

-- `f"{index:02d}"`
abbrev pub two_digits : Python → ℕ → String
two_digits py n = if ltb n 10 then concat ("0" ∷ py.show_number n ∷ []) else py.show_number n

abbrev pub Files : Type 0
Files = List (String × String)

-- What is left of a turn: the attempts, the files of the workspace, and the copy of the backend that won.
pub record Turns : Type 0 where
  pub attempts : List BackendAttempt
  pub files : Files
  pub copy : Option (String × String)

abbrev pub attempt_of : Backend → Outcome → String → BackendAttempt
attempt_of b outcome detail = record { backend = b.name; outcome = outcome; detail = detail }

abbrev pub add_attempt : BackendAttempt → Files → Turns → Turns
add_attempt a files t = record {
  attempts = a ∷ t.attempts;
  files = files ++ t.files;
  copy = t.copy;
}

module _ (py : Python) (source bytes workspace : String) where
  unfoldable pub stage_copy : ℕ → String → String
  stage_copy index backend =
      concat
        (workspace ∷ "/" ∷ two_digits py index ∷ "-" ∷ slug backend ∷ "/" ∷ py.name_of source ∷ [])

  -- The turn of a backend, by whether it is available and what it makes of its copy.
  abbrev pub turn : Backend → String → Bool → String × Option Raised → Turns → Turns
  turn b path false r rest =
      add_attempt (attempt_of b Outcome.unavailable b.available.reason) [] rest
  turn b path true (result, some e) rest =
      add_attempt (attempt_of b Outcome.failed (describe py e)) ((path, result) ∷ []) rest
  turn b path true (result, none) rest = record {
    attempts = attempt_of b Outcome.succeeded "" ∷ [];
    files = (path, result) ∷ [];
    copy = some (path, result);
  }

  -- Each backend gets its own copy of the bytes; the first that does not raise ends the loop.
  unfoldable pub run_chain : ℕ → List Backend → Turns
  run_chain index [] = record { attempts = []; files = []; copy = none }
  run_chain index (b ∷ bs) =
      turn b (stage_copy index b.name) b.available.available (b.recalculate bytes)
        (run_chain (suc index) bs)

-- The handle on a copy; a closed one has no workspace.
pub record RecalcResult : Type 0 where
  pub source : String
  pub copy_path : String
  pub backend : String
  pub attempts : List BackendAttempt
  pub workspace : Option String

unfoldable pub path : RecalcResult → Result String
path r = elim r.workspace [
  | none ↦ raise (
      runtime_error
        (concat ("the recalculated copy of " ∷ r.source ∷ " has already been discarded" ∷ [])))
  | some w ↦ ok r.copy_path
]

abbrev pub closed : RecalcResult → Bool
closed r = elim r.workspace [ none ↦ true | some w ↦ false ]

-- What a path of the input is.
pub data Target : Type 0 where
  missing directory : Target
  file : String → Target

pub record Disk : Type 0 where
  pub workspaces : List (String × Files)
  pub target : String → Target

abbrev pub cleanup : String → Disk → Disk
cleanup name disk = record disk {
  workspaces = keep (λ (w : String × Files). not (w.0 == name)) disk.workspaces;
}

abbrev pub last_backend : List BackendAttempt → String
last_backend [] = ""
last_backend (a ∷ []) = a.backend
last_backend (a ∷ b ∷ rest) = last_backend (b ∷ rest)

abbrev pub failure_detail : List BackendAttempt → String
failure_detail [] = "no backends offered"
failure_detail (a ∷ rest) = joined "; " (map show_attempt (a ∷ rest))

abbrev pub with_workspace : String → Files → Disk → Disk
with_workspace name files disk = record disk { workspaces = (name, files) ∷ disk.workspaces }

-- The handle on the copy, or RecalcFailed.
abbrev pub handle_of : String → String → Turns → Result RecalcResult
handle_of source workspace t = elim t.copy [
  | none ↦ raise (
      recalc_failed (
        concat (
          "no recalculation backend succeeded for "
          ∷ source
          ∷ ": "
          ∷ failure_detail t.attempts
          ∷ [])))
  | some (copy, result) ↦ ok (record {
    source = source;
    copy_path = copy;
    backend = last_backend t.attempts;
    attempts = t.attempts;
    workspace = some workspace;
  })
]

-- What leaves the chain before its end, with the files that it has made until then: an exception of
-- `available` or of the making of a copy, or one that `except Exception` does not catch.
abbrev pub Interruption : Type 0
Interruption = Failure × Files

-- The body of the try.
abbrev pub try_body :
    String → String → Disk → Option Interruption → Turns → Result RecalcResult × Disk
try_body source workspace disk (some (e, files)) t = (raise e, with_workspace workspace files disk)
try_body source workspace disk none t =
    (handle_of source workspace t, with_workspace workspace t.files disk)

-- `except BaseException: workspace.cleanup(); raise`
abbrev pub guard_workspace : String → Result RecalcResult × Disk → Result RecalcResult × Disk
guard_workspace workspace (ok r, disk) = (ok r, disk)
guard_workspace workspace (raise e, disk) = (raise e, cleanup workspace disk)

abbrev pub finish :
    String → String → Disk → Option Interruption → Turns → Result RecalcResult × Disk
finish source workspace disk interruption t =
    guard_workspace workspace (try_body source workspace disk interruption t)

-- `workspace` is the name that tempfile gives the new directory.
abbrev pub recalculate_target :
    Python
    → List Backend
    → Option Interruption
    → String
    → String
    → Target
    → Disk
    → Result RecalcResult × Disk
recalculate_target py chain interruption workspace source Target.missing disk = (
  raise (file_not_found (concat ("cannot recalculate a file that does not exist: " ∷ source ∷ []))),
  disk,
)
recalculate_target py chain interruption workspace source Target.directory disk = (
  raise (value_error (concat ("cannot recalculate a path that is not a file: " ∷ source ∷ []))),
  disk,
)
recalculate_target py chain interruption workspace source (Target.file bytes) disk =
    let t = run_chain py (py.resolve source) bytes workspace 0 chain in
    finish (py.resolve source) workspace disk interruption t

unfoldable pub recalculate :
    Python
    → List Backend
    → Option Interruption
    → String
    → String
    → Disk
    → Result RecalcResult × Disk
recalculate py chain interruption workspace source disk =
    recalculate_target py chain interruption workspace source (disk.target source) disk

unfoldable pub close : RecalcResult → Disk → RecalcResult × Disk
close r disk = elim r.workspace [
  | none ↦ (r, disk)
  | some w ↦ (record r { workspace = none }, cleanup w disk)
]

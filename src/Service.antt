-- ===== src/Service.antt =====
-- orchestrator/service.py: the lock file that keeps a workspace to one service. The calls of several
-- services follow each other here; what one does between two steps of another is left out.
pub mod One
use luis_puentes.Prelude.{
  ℕ, zero, suc, String, Bool, true, false, Option, none, some, List, [], ◌∷◌, ◌==◌, contains, keep,
  not, if◌then◌else◌,
}
use luis_puentes.Result.{Failure, Result, ok, raise, attribute_error, value_error}

-- What `int(existing.get("pid", 0))` comes to on a pid: a number, 0 where there is none; a ValueError on
-- a text that is no number; or another exception, as a TypeError on null and on a list. A negative number,
-- which is never that of a living process, stands as 0.
pub data Pid : Type 0 where
  number : ℕ → Pid
  no_number : Pid
  no_pid : Failure → Pid

-- The lock file: it is not there; it cannot be read, or is no JSON; its bytes are no UTF-8; it is JSON
-- but no object; or it is an object with a pid and perhaps a text for a token.
pub data LockFile : Type 0 where
  absent unreadable undecodable no_object : LockFile
  object : Pid → Option String → LockFile

abbrev pub written : ℕ → String → LockFile
written pid token = object (number pid) (some token)

-- What `acquire` comes to, with the file as it is then. `failed` is an exception that it does not catch,
-- and `cut_off` stands for a loop that is cut off.
pub data Acquisition : Type 0 where
  acquired already_running cut_off : LockFile → Acquisition
  failed : Failure → LockFile → Acquisition

abbrev pub pid_number : Pid → Result ℕ
pid_number (number pid) = ok pid
pid_number no_number = ok 0
pid_number (no_pid e) = raise e

-- `int(existing.get("pid", 0))`, and 0 for a file that cannot be read. Only an OSError and a ValueError
-- are caught; what is no object has no `get`.
abbrev pub pid_of : LockFile → Result ℕ
pid_of absent = ok 0
pid_of unreadable = ok 0
pid_of undecodable = ok 0
pid_of no_object = raise attribute_error
pid_of (object pid token) = pid_number pid

-- The file is there: a service that lives keeps it, and the file of a dead one is removed, which the
-- machine is taken to allow.
abbrev pub judge_file : (ℕ → Bool) → LockFile → Acquisition → Result ℕ → Acquisition
judge_file alive file again (ok pid) = if alive pid then already_running file else again
judge_file alive file again (raise e) = failed e file

abbrev pub take_over : (ℕ → Bool) → LockFile → Acquisition → Acquisition
take_over alive file again = judge_file alive file again (pid_of file)

-- The loop of `acquire`, on fuel.
unfoldable pub acquire : (ℕ → Bool) → ℕ → String → ℕ → LockFile → Acquisition
acquire alive pid token zero file = cut_off file
acquire alive pid token (suc fuel) absent = acquired (written pid token)
acquire alive pid token (suc fuel) unreadable =
    take_over alive unreadable (acquire alive pid token fuel absent)
acquire alive pid token (suc fuel) undecodable =
    take_over alive undecodable (acquire alive pid token fuel absent)
acquire alive pid token (suc fuel) no_object =
    take_over alive no_object (acquire alive pid token fuel absent)
acquire alive pid token (suc fuel) (object p t) =
    take_over alive (object p t) (acquire alive pid token fuel absent)

-- Removes the file if it is the service's own. An OSError and what is no JSON are caught; bytes that are
-- no UTF-8 and what is no object raise.
abbrev pub remove_own : String → LockFile → Result LockFile
remove_own token absent = ok absent
remove_own token unreadable = ok unreadable
remove_own token undecodable = raise (value_error "invalid UTF-8")
remove_own token no_object = raise attribute_error
remove_own token (object pid none) = ok (object pid none)
remove_own token (object pid (some t)) = ok (if t == token then absent else object pid (some t))

-- The file, and the tokens of the locks whose `acquired` is set.
pub record World : Type 0 where
  pub file : LockFile
  pub holders : List String

pub data ServiceCall : Type 0 where
  acquiring : ℕ → String → ServiceCall
  releasing : String → ServiceCall

abbrev pub after_acquire : String → List String → Acquisition → World
after_acquire token holders (acquired file) = record { file = file; holders = token ∷ holders }
after_acquire token holders (already_running file) = record { file = file; holders = holders }
after_acquire token holders (cut_off file) = record { file = file; holders = holders }
after_acquire token holders (failed e file) = record { file = file; holders = holders }

-- `acquired` is unset at the end, so that a release that raises leaves it set.
abbrev pub after_removal : String → World → Result LockFile → World
after_removal token w (ok file) = record {
  file = file;
  holders = keep (λ t. not (t == token)) w.holders;
}
after_removal token w (raise e) = w

abbrev pub release : String → World → World
release token w =
    if contains w.holders token then after_removal token w (remove_own token w.file) else w

unfoldable pub after_call : (ℕ → Bool) → ServiceCall → World → World
after_call alive (acquiring pid token) w =
    after_acquire token w.holders (acquire alive pid token 2 w.file)
after_call alive (releasing token) w = release token w

unfoldable pub after_calls : (ℕ → Bool) → List ServiceCall → World → World
after_calls alive [] w = w
after_calls alive (c ∷ cs) w = after_calls alive cs (after_call alive c w)

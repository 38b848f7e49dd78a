-- ===== src/Coordinator/Answers/Mail.antt =====
-- What an answer can do to the mail and the tasks.
use luis_puentes.Prelude.{◌≡◌, false, List, any}
use luis_puentes.Result.{Result}
use luis_puentes.Models.{TaskEnvelope, executable}
use luis_puentes.State.{Store}
use luis_puentes.State.Keeps.{Keeps}

-- The tasks are these, and no message is executable.
abbrev pub IsQuiet : List TaskEnvelope → Store → Type 0
IsQuiet tasks s = (s.tasks ≡ tasks) × (any executable s.messages ≡ false)

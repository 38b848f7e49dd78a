-- ===== src/Result.antt =====
-- The exceptions that the control plane raises, and the outcome of a call that may raise.
use luis_puentes.Prelude.{String, Bool}

pub data Failure : Type 0 where
  value_error : String → Failure
  type_error : Failure
  key_error : String → Failure
  permission_error : String → Failure
  integrity_error : Failure
  startup_error : String → Bool → Failure
  agent_busy : String → Failure
  attribute_error : Failure
  file_not_found : String → Failure
  os_error : String → Failure
  runtime_error : String → Failure
  recalc_failed : String → Failure
  tokenizer_error : String → Failure
  keyboard_interrupt : Failure

pub data Result {ℓ} (A : Type ℓ) : Type ℓ where
  ok : A → Result A
  raise : Failure → Result A

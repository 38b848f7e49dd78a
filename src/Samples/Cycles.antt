-- ===== src/Samples/Cycles.antt =====
-- Cycles, imports and services on the sample workspace.
use luis_puentes.Prelude.{ℕ, List, Bool, not, leb, ◌≤◌, length, ◌≡◌, refl, [], ◌∷◌, keep}
use luis_puentes.Result.{ok}
use luis_puentes.Models.{TaskEnvelope}
use luis_puentes.State.{utcnow, uuid4, append_event}
use luis_puentes.State.Messages.{save_message}
use luis_puentes.State.Meta.{has_legacy_import, record_legacy_import}
use luis_puentes.Coordinator.Inbox.{inbox_send}
use luis_puentes.Service.{written, acquire, ServiceCall, acquiring, releasing, after_calls}
use luis_puentes.Service.One.{EndsWith, after_calls-length, acquire-ends}
use luis_puentes.Legacy.{Valid, Imported, import_each}
use luis_puentes.Legacy.Once.{import_each-once}
use luis_puentes.Coordinator.Cycle.{by_lane, with_route}
use luis_puentes.Coordinator.Cycle.Lanes.{batch, has_lane, by_lane-reference}
use luis_puentes.Samples.{sample_store, sample_task}

-- Two tasks of two lanes.
abbrev other_task : TaskEnvelope
other_task = record sample_task { task_id = "task-2"; lane_key = "audit" }

by_lane-reference_example :
    batch "audit" (by_lane (sample_task ∷ other_task ∷ []) [])
    ≡ keep (has_lane "audit") (sample_task ∷ other_task ∷ [])
by_lane-reference_example = by_lane-reference "audit" (sample_task ∷ other_task ∷ [])

abbrev routed_task : TaskEnvelope
routed_task = with_route sample_task 5000 6000

abbrev old_note : Valid
old_note = record {
  filename = "note.md";
  target = "audit";
  source = "/inbox/note.md";
  import_id = "digest";
}

abbrev imported_note : Imported
imported_note = record {
  filename = "note.md";
  message_id = "id-a";
  target = "audit";
  import_id = "digest";
}

import_each-once_example :
    let t = (import_each (old_note ∷ []) sample_store).1 in
    import_each (old_note ∷ []) t ≡ (ok ([], "note.md" ∷ []), t)
unfolding import_each has_legacy_import inbox_send record_legacy_import utcnow uuid4 append_event
    save_message
import_each-once_example =
    import_each-once (old_note ∷ []) sample_store {out = (imported_note ∷ [], [])} refl

-- A service that dies without giving its lock back, and two that want it.
abbrev service_calls : List ServiceCall
service_calls = acquiring 2 "token-b" ∷ acquiring 3 "token-c" ∷ releasing "token-b" ∷ []

abbrev is_alive : ℕ → Bool
is_alive pid = not (leb pid 1)

after_calls-length_example :
    length
      (after_calls is_alive service_calls
        (record { file = written 1 "token-a"; holders = [] })).holders
    ≤ 1
after_calls-length_example =
    after_calls-length is_alive service_calls (written 1 "token-a") (refl, (refl, (tt, tt)))

acquire-ends_example :
    EndsWith is_alive 2 "token-b"
      (written 1 "token-a")
      (acquire is_alive 2 "token-b" 5 (written 1 "token-a"))
acquire-ends_example = acquire-ends is_alive 2 3 "token-b" (written 1 "token-a")

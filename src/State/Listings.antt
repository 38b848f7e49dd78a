-- ===== src/State/Listings.antt =====
-- The listings of approvals, events and metrics of orchestrator/state.py.
use luis_puentes.Prelude.{
  ℕ, String, Bool, true, false, Option, none, some, List, ◌==◌, ◌&&◌, if◌then◌else◌, keep, leb,
  sort_by, take,
}
use luis_puentes.Models.{ApprovalRequest, ApprovalStatus}
use luis_puentes.State.{Store, Event, Metric}

abbrev pub same_status : ApprovalStatus → ApprovalStatus → Bool
same_status ApprovalStatus.pending ApprovalStatus.pending = true
same_status ApprovalStatus.approved ApprovalStatus.approved = true
same_status ApprovalStatus.rejected ApprovalStatus.rejected = true
same_status ApprovalStatus.expired ApprovalStatus.expired = true
same_status _ _ = false

abbrev pub passes : Option ApprovalStatus → ApprovalRequest → Bool
passes none row = true
passes (some status) row = same_status row.status status

unfoldable pub list_approvals : Option ApprovalStatus → Store → List ApprovalRequest
list_approvals status s =
    sort_by (λ a b. leb a.requested_at b.requested_at)
      (keep (λ row. row.workspace == s.workspace && passes status row) s.approvals)

-- The latest events first.
unfoldable pub list_events : ℕ → Store → List Event
list_events limit s = take limit (
    sort_by (λ a b. leb b.created_at a.created_at)
      (keep (λ e. e.workspace == s.workspace) s.events))

-- A name that is empty is no name.
abbrev pub is_named : Option String → Metric → Bool
is_named none metric = true
is_named (some name) metric = if name == "" then true else metric.name == name

unfoldable pub list_metrics : Option String → Store → List Metric
list_metrics name s =
    sort_by (λ a b. leb a.recorded_at b.recorded_at)
      (keep (λ m. m.workspace == s.workspace && is_named name m) s.metrics)

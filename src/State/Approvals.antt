-- ===== src/State/Approvals.antt =====
-- The approval rows of orchestrator/state.py. The primary key is approval_id.
use luis_puentes.Prelude.{
  String, Bool, Option, [], ◌∷◌, ◌++◌, ◌==◌, ◌&&◌, if◌then◌else◌, first, any, update_where,
}
use luis_puentes.Result.{ok}
use luis_puentes.Models.{ApprovalRequest}
use luis_puentes.State.{M, modify}

abbrev pub has_id : String → ApprovalRequest → Bool
has_id approval_id row = row.approval_id == approval_id

abbrev pub has_own_id : String → String → ApprovalRequest → Bool
has_own_id workspace approval_id row = row.approval_id == approval_id && row.workspace == workspace

-- The columns that `DO UPDATE SET` names.
unfoldable pub overwrite_approval : ApprovalRequest → ApprovalRequest → ApprovalRequest
overwrite_approval approval row = record row {
  status = approval.status;
  resolved_at = approval.resolved_at;
  resolver = approval.resolver;
  metadata = approval.metadata;
}

unfoldable pub save_approval : ApprovalRequest → M (Unit {0})
unfolding overwrite_approval
save_approval approval = modify (λ s. record s {
  approvals =
      (if any (has_id approval.approval_id) s.approvals
        then update_where (has_id approval.approval_id) (overwrite_approval approval) s.approvals
        else s.approvals ++ approval ∷ []);
})

unfoldable pub get_approval : String → M (Option ApprovalRequest)
get_approval approval_id s = (ok (first (has_own_id s.workspace approval_id) s.approvals), s)

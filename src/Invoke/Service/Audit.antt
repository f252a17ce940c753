-- ===== src/Invoke/Service/Audit.antt =====
-- One audit row for every outcome with a resolved grant, and none for the others.
use credbroker.Common.{Text, List, ◌≡◌}
use credbroker.Exec.Keeps.{Keeps}
use credbroker.Exec.{Result, ok, pure, ◌>>◌}
use credbroker.Invoke.Audit.{record_call}
use credbroker.Invoke.Outcome.{InvokeOutcome, InvokeService}
use credbroker.Json.{Fields}
use credbroker.Models.{Grant, ToolCallAuditLog}
use credbroker.World.{World, Outside, M}
use credbroker.Invoke.Service.Rows.{Audited}

module _ (o : Outside) where
  open o.redis use {Store}

  module _ (service : InvokeService) (tool_name : Text) (arguments : Fields) where
    -- After an outcome, the row.
    abbrev then_recorded : Grant → InvokeOutcome → M o InvokeOutcome
    then_recorded g out =
        record_call o g.id tool_name arguments out.status out.latency_ms >> pure out

    Audits : (Grant → Type 0) → List ToolCallAuditLog → Result InvokeOutcome × World Store → Type 0
    Audits Resolves base (r, w) =
        (outcome : InvokeOutcome)
        → r ≡ ok outcome
        → Audited o tool_name arguments Resolves base outcome w

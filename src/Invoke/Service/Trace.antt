-- ===== src/Invoke/Service/Trace.antt =====
-- `_invoke_resolved` and `invoke` keep a discipline of the trace, but for the audit row.
use credbroker.Common.{refl, ℕ, Text, Bool, true, false, Option, none, some, List, ◌∷◌}
use credbroker.Errors.{broker, idempotency_conflict, grant_expired, grant_token_invalid}
use credbroker.Exec.{Result, ok, err}
use credbroker.Exec.Keeps.{Keeps}
use credbroker.Grants.Tokens.{GrantClaims}
use credbroker.Invoke.Audit.{record_call, insert_audit}
use credbroker.Invoke.Discipline.{Discipline}
use credbroker.Invoke.Execute.Trace.{Keeps-denied, Keeps-succeeded, Keeps-execute_call}
use credbroker.Invoke.Credential.Trace.{Keeps-failed}
use credbroker.Invoke.Outcome.{InvokeOutcome, InvokeService}
use credbroker.Invoke.Service.{
  run_call, settle, finish, conflict, reserved, replayed, deduplicated, with_tool, rate_allowed,
  invoke_resolved, backstop, fast_check, audited_call, resolved, verified, invoke,
}
use credbroker.Invoke.Trace.{
  Keeps-is_revoked, Keeps-check, Keeps-get, Keeps-reserve, Keeps-complete, Keeps-release,
}
use credbroker.Json.{Json, Fields}
use credbroker.Models.{Status, Grant, ToolCallAuditLog}
use credbroker.Tools.{ToolAdapter}
use credbroker.World.{World, Event, Outside, assign, audited}
use credbroker.World.Trace.{Frame, OnTrace, silent, Keeps-emit, Keeps-assign}

module _ (o : Outside) (service : InvokeService) {I : World o.redis.Store → Type 0}
    {Q R : List Event → Type 0} (frame : Frame o I) (d : Discipline Q R) where
  module _ (grant : Grant) (token_hash tool_name : Text) (arguments : Fields) (start : ℕ) where
    Keeps-run_call :
        (tool : ToolAdapter)
        → Keeps (OnTrace I Q) (run_call o service grant token_hash tool_name arguments start tool)
    unfolding run_call
    Keeps-run_call tool = Keeps-execute_call o frame d service grant token_hash tool arguments start

    Keeps-settle :
        (key owner : Text) (status : Status) (result : Option Json)
        → Keeps
            (OnTrace I Q)
            (settle o service grant token_hash tool_name arguments start key owner status result)
    unfolding settle
    Keeps-settle key owner Status.success result = search Keeps-complete
    Keeps-settle key owner _ result = search Keeps-release

    Keeps-finish :
        (key owner : Text) (r : Result InvokeOutcome)
        → Keeps
            (OnTrace I Q)
            (finish o service grant token_hash tool_name arguments start key owner r)
    unfolding finish
    Keeps-finish key owner (ok outcome) = search (silent, Keeps-settle)
    Keeps-finish key owner (err e) = search (silent, Keeps-release)

    Keeps-conflict :
        Keeps (OnTrace I Q) (conflict o service grant token_hash tool_name arguments start)
    unfolding conflict
    Keeps-conflict = search Keeps-denied

    Keeps-reserved :
        (tool : ToolAdapter) (key : Text) (owner : Option Text)
        → Keeps
            (OnTrace I Q)
            (reserved o service grant token_hash tool_name arguments start tool key owner)
    unfolding reserved
    Keeps-reserved tool key none = search Keeps-conflict
    Keeps-reserved tool key (some owner) = search (silent, Keeps-run_call, Keeps-finish)

    Keeps-replayed :
        (tool : ToolAdapter) (key : Text) (r : Result (Option Json))
        → Keeps
            (OnTrace I Q)
            (replayed o service grant token_hash tool_name arguments start tool key r)
    unfolding replayed
    Keeps-replayed tool key (err (broker idempotency_conflict m)) = search Keeps-conflict
    Keeps-replayed tool key (err e) = search silent
    Keeps-replayed tool key (ok (some cached)) = search Keeps-succeeded
    Keeps-replayed tool key (ok none) = search (silent, Keeps-reserve, Keeps-reserved)

    Keeps-deduplicated :
        (tool : ToolAdapter) (b : Bool) (key : Option Text)
        → Keeps
            (OnTrace I Q)
            (deduplicated o service grant token_hash tool_name arguments start tool b key)
    unfolding deduplicated
    Keeps-deduplicated tool true (some key) = search (silent, Keeps-get, Keeps-replayed)
    Keeps-deduplicated tool _ _ = search Keeps-run_call

    Keeps-with_tool :
        (key : Option Text) (r : Result ToolAdapter)
        → Keeps (OnTrace I Q) (with_tool o service grant token_hash tool_name arguments start key r)
    unfolding with_tool
    Keeps-with_tool key (err e) = search Keeps-denied
    Keeps-with_tool key (ok tool) = search (silent, Keeps-denied, Keeps-deduplicated)

    Keeps-rate_allowed :
        (b : Bool)
        → Keeps (OnTrace I Q) (rate_allowed o service grant token_hash tool_name arguments start b)
    unfolding rate_allowed
    Keeps-rate_allowed false = search silent
    Keeps-rate_allowed true = search Keeps-check

    pub Keeps-invoke_resolved :
        (key : Option Text) (fast : Bool)
        → Keeps
            (OnTrace I Q)
            (invoke_resolved o service grant token_hash tool_name arguments start key fast)
    unfolding invoke_resolved
    Keeps-invoke_resolved key fast =
        search (silent, Keeps-denied, Keeps-rate_allowed, Keeps-with_tool, Keeps-emit, d.on_counted)
          depth 12

  pub Keeps-backstop :
      (start : ℕ) (r : Result InvokeOutcome) → Keeps (OnTrace I Q) (backstop o service start r)
  unfolding backstop
  Keeps-backstop start (ok outcome) = search silent
  Keeps-backstop start (err e) = search (silent, Keeps-failed)

  pub Keeps-fast_check : (b : Bool) (h : Text) → Keeps (OnTrace I Q) (fast_check o service b h)
  unfolding fast_check
  Keeps-fast_check false h = search silent
  Keeps-fast_check true h = search Keeps-is_revoked

  module _
      (on_audited : (row : ToolCallAuditLog) (t : List Event) → Q t → Q (audited row ∷ t)) where
    Keeps-insert_audit :
        (row : ToolCallAuditLog) → Keeps (OnTrace I Q) (assign o (insert_audit o row))
    Keeps-insert_audit row = Keeps-assign o frame _ (λ db. refl)

    Keeps-record_call :
        (id : ℕ) (tool_name : Text) (arguments : Fields) (status : Status) (ms : ℕ)
        → Keeps (OnTrace I Q) (record_call o id tool_name arguments status ms)
    unfolding record_call
    Keeps-record_call id tool_name arguments status ms =
        search (silent, Keeps-emit, Keeps-insert_audit, on_audited) depth 10

    Keeps-audited_call :
        (g : Grant) (h tool_name : Text) (arguments : Fields) (key : Option Text) (fast : Bool)
        (start : ℕ)
        → Keeps (OnTrace I Q) (audited_call o service g h tool_name arguments key fast start)
    unfolding audited_call
    Keeps-audited_call g h tool_name arguments key fast start =
        search (silent, Keeps-invoke_resolved, Keeps-backstop, Keeps-record_call) depth 8

    Keeps-resolved :
        (h tool_name : Text) (arguments : Fields) (key : Option Text) (fast : Bool) (start : ℕ)
        (g : Option Grant)
        → Keeps (OnTrace I Q) (resolved o service h tool_name arguments key fast start g)
    unfolding resolved
    Keeps-resolved h tool_name arguments key fast start none = search Keeps-denied
    Keeps-resolved h tool_name arguments key fast start (some g) = search Keeps-audited_call

    Keeps-verified :
        (token tool_name : Text) (arguments : Fields) (key : Option Text) (start : ℕ)
        (r : Result GrantClaims)
        → Keeps (OnTrace I Q) (verified o service token tool_name arguments key start r)
    unfolding verified
    Keeps-verified token tool_name arguments key start (err (broker grant_expired m)) =
        search Keeps-denied
    Keeps-verified token tool_name arguments key start (err (broker grant_token_invalid m)) =
        search Keeps-denied
    Keeps-verified token tool_name arguments key start (err e) = search silent
    Keeps-verified token tool_name arguments key start (ok claims) =
        search (silent, Keeps-denied, Keeps-fast_check, Keeps-resolved) depth 10

    pub Keeps-invoke :
        (token tool_name : Text) (arguments : Fields) (key : Option Text)
        → Keeps (OnTrace I Q) (invoke o service token tool_name arguments key)
    unfolding invoke
    Keeps-invoke token tool_name arguments key = search (silent, Keeps-verified)

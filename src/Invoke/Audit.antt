-- ===== src/Invoke/Audit.antt =====
-- credbroker/invoke/audit.py.
use credbroker.Common.{ℕ, Text, ◌∷◌}
use credbroker.Exec.{pure, ◌>>=◌, ◌>>◌}
use credbroker.Json.{Fields, obj}
use credbroker.Models.{Status, ToolCallAuditLog, Database}
use credbroker.World.{Outside, M, draw, utcnow, assign, commit, emit, audited}

module _ (o : Outside) where
  -- `hash_arguments`: the hash of `json.dumps` with sorted keys and compact separators
  abbrev pub hash_arguments : Fields → Text
  hash_arguments arguments = o.sha256 (o.canonical (obj arguments))

  abbrev pub insert_audit : ToolCallAuditLog → Database → Database
  insert_audit row db = record db { audit_log = row ∷ db.audit_log }

  abbrev pub audit_row : ℕ → ℕ → ℕ → Text → Fields → Status → ℕ → ToolCallAuditLog
  audit_row id now grant_id tool_name arguments status latency_ms = record {
    id = id;
    grant_id = grant_id;
    tool_name = tool_name;
    arguments_hash = hash_arguments arguments;
    status = status;
    latency_ms = latency_ms;
    called_at = now;
  }

  -- `record_call`; the row's own id and time are the defaults of its columns
  unfoldable pub record_call : ℕ → Text → Fields → Status → ℕ → M o ToolCallAuditLog
  record_call grant_id tool_name arguments status latency_ms = do
    id ← draw o
    now ← utcnow o
    let row = audit_row id now grant_id tool_name arguments status latency_ms
    assign o (insert_audit row)
    commit o
    emit o (audited row)
    pure row

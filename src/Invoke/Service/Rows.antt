-- ===== src/Invoke/Service/Rows.antt =====
-- The audit rows of a trace, and which of them an outcome has.
use credbroker.Common.{Text, text_eq, some, List, [], ◌∷◌, ◌≡◌, ◌⊎◌}
use credbroker.Invoke.Audit.{hash_arguments}
use credbroker.Invoke.Discipline.{Discipline}
use credbroker.Invoke.Outcome.{InvokeOutcome, InvokeService, Reason}
use credbroker.Invoke.Service.{fast_check}
use credbroker.Grants.Tokens.{hash_token}
use credbroker.Json.{Fields}
use credbroker.Models.{Status, Grant, ToolCallAuditLog, find}
use credbroker.World.{Event, World, Outside, audited, await}

-- The audit rows that were committed, the latest first.
abbrev pub rows : List Event → List ToolCallAuditLog
rows [] = []
rows (audited row ∷ t) = row ∷ rows t
rows (_ ∷ t) = rows t

-- The rows are those of a list.
abbrev pub AreRows : List ToolCallAuditLog → List Event → Type 0
AreRows base t = rows t ≡ base

pub rows_discipline : (base : List ToolCallAuditLog) → Discipline (AreRows base) (AreRows base)
rows_discipline base = record {
  on_counted = λ n l t g. g;
  on_decrypted = λ t g. g;
  on_refreshed = λ t g. g;
  on_rechecked = λ b t g. g;
  cleared = λ t g. g;
  on_contacted = λ token t g. g;
  weaken = λ t g. g;
}

-- A denial that comes before a grant row is resolved.
abbrev pub IsUnresolved : InvokeOutcome → Type 0
IsUnresolved outcome =
    (outcome.status ≡ Status.denied)
    × ((outcome.denied_reason ≡ some Reason.expired)
        ⊎ (outcome.denied_reason ≡ some Reason.invalid_token)
        ⊎ (outcome.denied_reason ≡ some Reason.tool_mismatch)
        ⊎ (outcome.denied_reason ≡ some Reason.not_found))

module _ (o : Outside) where
  open o.redis use {Store}

  -- The world whose tables the grant row is read from, by an invocation that begins in a world: after
  -- the fast check of the revocation marker, in a new session.
  abbrev pub lookup_world : InvokeService → Text → World Store → World Store
  lookup_world service token w =
      (await o
        (fast_check o service service.grant_cache (hash_token o token)
          (record w { pending = λ db. db })).1).1

  -- The grant with the hash of the token, in those tables.
  abbrev pub IsResolved : InvokeService → Text → World Store → Grant → Type 0
  IsResolved service token w g =
      find (λ (g : Grant). text_eq g.grant_token_hash (hash_token o token))
        (lookup_world service token w).db.grants
      ≡ some g

  module _ (tool_name : Text) (arguments : Fields) where
    -- A row that tells of an outcome for a grant.
    abbrev pub Tells : Grant → InvokeOutcome → ToolCallAuditLog → Type 0
    Tells g outcome row =
        (row.grant_id ≡ g.id)
        × (row.status ≡ outcome.status)
        × (row.latency_ms ≡ outcome.latency_ms)
        × (row.tool_name ≡ tool_name)
        × (row.arguments_hash ≡ hash_arguments o arguments)

    -- The latest row of the audit table, and the only one that was committed since.
    abbrev pub Stored : List ToolCallAuditLog → ToolCallAuditLog → World Store → Type 0
    Stored base row w =
        (rows w.trace ≡ row ∷ base) × (rest : List ToolCallAuditLog) × (w.db.audit_log ≡ row ∷ rest)

    abbrev pub Audited :
        (Grant → Type 0) → List ToolCallAuditLog → InvokeOutcome → World Store → Type 0
    Audited Resolves base outcome w =
        ((rows w.trace ≡ base) × IsUnresolved outcome)
        ⊎ ((g : Grant) × (row : ToolCallAuditLog) × Resolves g
            × Stored base row w
            × Tells g outcome row)

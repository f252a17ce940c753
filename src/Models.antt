-- ===== src/Models.antt =====
-- The tables of credbroker/db/models.py as records of rows. A UUID is its integer, a timestamp
-- the UTC microseconds since the epoch, so `ensure_aware` has nothing left to do.
use credbroker.Common.{ℕ, Text, Bool, Option, none, some, List, [], ◌∷◌, map, if◌then◌else◌}

pub record ConnectedAccount : Type 0 where
  pub id : ℕ
  pub user_id : ℕ
  pub provider : Text
  pub encrypted_access_token : Text
  pub encrypted_refresh_token : Option Text
  pub scopes_granted : List Text
  pub expires_at : Option ℕ
  pub created_at : ℕ

pub record AgentIdentity : Type 0 where
  pub id : ℕ
  pub user_id : ℕ
  pub name : Text
  pub allowed_scopes : List Text
  pub created_at : ℕ

pub record Grant : Type 0 where
  pub id : ℕ
  pub agent_id : ℕ
  pub connected_account_id : ℕ
  pub tool_name : Text
  pub scope : Text
  pub grant_token_hash : Text
  pub issued_at : ℕ
  pub expires_at : ℕ
  pub revoked_at : Option ℕ

-- The values of `status`.
pub data Status : Type 0 where
  success failed denied : Status

pub record ToolCallAuditLog : Type 0 where
  pub id : ℕ
  pub grant_id : ℕ
  pub tool_name : Text
  pub arguments_hash : Text
  pub status : Status
  pub latency_ms : ℕ
  pub called_at : ℕ

pub record Database : Type 0 where
  pub accounts : List ConnectedAccount
  pub agents : List AgentIdentity
  pub grants : List Grant
  pub audit_log : List ToolCallAuditLog

module _ {ℓ} {A : Type ℓ} where
  -- The row that a `select` with a unique answer gives.
  unfoldable pub find : (A → Bool) → List A → Option A
  find p [] = none
  find p (x ∷ xs) = if p x then some x else find p xs

  -- An UPDATE of the rows that satisfy a condition.
  unfoldable pub update_where : (A → Bool) → (A → A) → List A → List A
  update_where p f = map λ x. if p x then f x else x

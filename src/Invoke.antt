-- ===== src/Invoke.antt =====
-- credbroker/invoke: the path from a grant token to a provider's answer.
pub mod Outcome
pub mod Audit
pub mod Credential
pub mod Execute
pub mod Service
pub mod Trace
pub mod Discipline
pub mod Revocation

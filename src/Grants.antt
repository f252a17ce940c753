-- ===== src/Grants.antt =====
-- credbroker/grants: the grant tokens, and their issuance and revocation.
pub mod Tokens
pub mod Service

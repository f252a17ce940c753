-- ===== src/Console/Grants.antt =====
-- The grants as the operator's API creates and shows them.
pub mod Surfaces
pub mod Shown

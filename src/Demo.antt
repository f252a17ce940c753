-- ===== src/Demo.antt =====
-- credbroker/demo: seed data and the fake provider.
pub mod Seed
pub mod FakeDrive

-- ===== src/Console.antt =====
-- credbroker/console: the operator's API.
pub mod Order
pub mod Views
pub mod State
pub mod Api
pub mod Routes
pub mod Grants
pub mod Seeding

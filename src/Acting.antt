-- ===== src/Acting.antt =====
-- The package acting: actors that devices offer, their contracts and their subscriptions.
pub mod Roles
pub mod Subscriptions
pub mod Newsletters
pub mod Actors
pub mod Agency
mod Tests

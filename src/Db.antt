-- ===== src/Db.antt =====
-- The databases over the indices: workflow/ResourceDB.go and the five files that embed it.
pub mod Hits
pub mod EventTypes
pub mod Shelf
pub mod Alerts
pub mod Crons
pub mod Conditions
pub mod Triggers
pub mod Events
pub mod Reading
pub mod Uncounted
pub mod Compensation
pub mod Touching

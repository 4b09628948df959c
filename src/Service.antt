-- ===== src/Service.antt =====
-- The methods of workflow/Service.go.
pub mod Lookup
pub mod EventTypes
pub mod Alerts
pub mod Triggers
pub mod Jobs
pub mod Events
pub mod Cron
pub mod Stats
pub mod Reading
pub mod Replies
pub mod Listing
pub mod Deletion
pub mod Firing
pub mod Counting
pub mod Ticking
pub mod Touching
pub mod Startup

-- ===== src/Dashboard.antt =====
-- The dashboard (services/dashboard/src): what its components decide, without what they draw.
pub mod Types
pub mod View
pub mod Auth
pub mod Api
pub mod Stream
pub mod Queries
pub mod Settings
pub mod Crew
pub mod Weather
pub mod Pages
pub mod Routes
pub mod Equipment
pub mod StandPlan
pub mod Overview
pub mod Format
mod Tests

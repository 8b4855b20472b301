-- ===== src/Turnaround.antt =====
-- The turnaround service (services/turnaround-service/src), part by part.
pub mod Schema
pub mod Dto
pub mod Templates
pub mod Event
pub mod Store
pub mod World
pub mod Repository
pub mod Weather
pub mod Publisher
pub mod Tasks
pub mod Service
pub mod Controller
pub mod Config
pub mod Consumers
pub mod Concurrent
pub mod Calls
mod Tests

-- ===== src/Stats.antt =====
-- The traffic statistics: src/stats and the tables of database/TrafficStatsRepo.cpp.
pub mod Table
pub mod Repo
pub mod Manager
pub mod Connections
pub mod Looper
mod Examples
mod PollExamples
mod LooperExamples

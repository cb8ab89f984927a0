-- ===== src/Orchestrator.antt =====
-- internal/orchestrator/orchestrator.go
pub mod World
pub mod Window
pub mod Excerpt
pub mod Sender
pub mod Classify
pub mod TopN
pub mod Stats
pub mod Highlights
pub mod DigestBuild
pub mod Delivery
pub mod Run

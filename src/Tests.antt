-- ===== src/Tests.antt =====
-- Runs of the modelled operations, and the theorems at concrete inputs.
mod Data
mod Stores
mod Commits
mod PathFacts
mod StoreFacts
mod CommitFacts
mod HistoryFacts
mod LibraryFacts
mod Connections
mod NetworkFacts
mod ToolFacts
mod ResponderFacts

-- ===== src/Tests.antt =====
-- Concrete inputs, and the theorems at them.
mod Base
mod AuthTests
mod StorageTests
mod MigrationTests
mod ServerTests
mod OrchestratorTests
mod ConfigTests
mod OidcTests
mod PoolTests
mod CommandTests

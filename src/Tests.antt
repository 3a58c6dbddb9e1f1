-- ===== src/Tests.antt =====
-- The theorems at concrete inputs.
pub mod EngineRuns
pub mod WalletRuns
pub mod DepositRuns
pub mod ServiceRuns
pub mod SolvencyRuns

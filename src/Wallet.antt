-- ===== src/Wallet.antt =====
-- libs/wallet/src: the wallet, the play sessions and the rounds, over a store of tables. Money to
-- Sessions model the code; the others state what holds of it.
pub mod Money
pub mod Reply
pub mod Store
pub mod Guards
pub mod Bets
pub mod Writes
pub mod Mines
pub mod Towers
pub mod Instant
pub mod Sessions
pub mod Isolation
pub mod Columns
pub mod Net
pub mod BetSolvency
pub mod CashOutSolvency
pub mod Rows
pub mod Funds
pub mod Starts
pub mod Solvency
pub mod OpenRounds
pub mod Settled
pub mod OnlySession
pub mod Atomic
pub mod OpenBets
pub mod Stakes
pub mod RuleWrites
pub mod Cut
pub mod WholeCents
pub mod Interleaved

-- ===== src/Deposits.antt =====
-- libs/wallet/src/deposits: quoting, watching and crediting deposits of coins. Types to Watch model
-- the code; the others state what holds of it.
pub mod Types
pub mod Coins
pub mod Chain
pub mod Prices
pub mod Credit
pub mod Watch
pub mod Machine
pub mod CreditMoves
pub mod Once
pub mod FreeAmount
pub mod Pays
pub mod ScanMoves

-- ===== src/Engine.antt =====
-- libs/engine/src: the random draws, the rules of each game, and the choice of a round's result.
pub mod Rng
pub mod Odds
pub mod Dice
pub mod CoinFlip
pub mod Limbo
pub mod Wheel
pub mod Layout
pub mod Mines
pub mod Plinko
pub mod Towers
pub mod Keno
pub mod Control
pub mod Round
pub mod Validate

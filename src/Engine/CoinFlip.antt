-- ===== src/Engine/CoinFlip.antt =====
-- `resolveCoinFlip` of libs/engine/src/rules.ts.
pub mod Forced
use crispy_enigma.Base.{Bool, true, false, if◌then◌else◌, Option, none, some}
use crispy_enigma.Number.{Number, whole, decimal, lt}
use crispy_enigma.Contracts.{Side, heads, tails, ForcedResult, Outcome, RoundResult, SeedContext}
use crispy_enigma.Engine.Rng.{Hmac, seeded_float}
use crispy_enigma.Engine.Odds.{fair_multiplier}

abbrev pub opposite : Side → Side
opposite heads = tails
opposite tails = heads

abbrev pub same_side : Side → Side → Bool
same_side heads heads = true
same_side tails tails = true
same_side a b = false

unfoldable pub flip_result : Side → Number → ForcedResult → Side
unfolding decimal
flip_result side float none = if lt float (decimal 1 2) then heads else tails
flip_result side float (some true) = side
flip_result side float (some false) = opposite side

module _ (hmac : Hmac) where
  unfoldable pub resolve_coin_flip : Side → SeedContext → Number → ForcedResult → RoundResult
  unfolding flip_result fair_multiplier seeded_float decimal whole
  resolve_coin_flip side seeds house_edge forced =
      let multiplier = fair_multiplier (decimal 1 2) house_edge in
      let result = flip_result side (seeded_float hmac seeds 0) forced in
      let won = same_side result side in
      record {
        won = won;
        multiplier = if won then multiplier else whole 0;
        outcome = Outcome.coin_flip result;
      }

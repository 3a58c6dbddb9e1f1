-- ===== src/Engine/Limbo.antt =====
-- `resolveLimbo` of libs/engine/src/rules.ts.
use crispy_enigma.Base.{◌^◌, true, false, if◌then◌else◌, none, some}
use crispy_enigma.Number.{Number, whole, decimal, add, sub, mul, div, le, max_of}
use crispy_enigma.Contracts.{ForcedResult, Outcome, RoundResult, SeedContext}
use crispy_enigma.Engine.Rng.{Hmac, seeded_float}
use crispy_enigma.Engine.Odds.{round2, clamp}

-- The result for the clamped target, at a draw `float`.
unfoldable pub limbo_draw : Number → Number → Number → Number → ForcedResult → Number
unfolding round2 add sub mul div decimal whole
limbo_draw target float house_edge max_multiplier none = round2 (
    clamp (div (sub (whole 1) house_edge) (max_of float (decimal 1 (10 ^ 9)))) (whole 1)
      max_multiplier)
limbo_draw target float house_edge max_multiplier (some true) =
    round2 (clamp (add target (mul float (sub max_multiplier target))) target max_multiplier)
limbo_draw target float house_edge max_multiplier (some false) = round2 (
    clamp (add (whole 1) (mul float (sub target (decimal 101 100)))) (whole 1)
      (sub target (decimal 1 100)))

unfoldable pub settle_limbo : Number → Number → Number → ForcedResult → Number → RoundResult
unfolding limbo_draw round2 decimal whole
settle_limbo selected float house_edge forced max_multiplier =
    let target = clamp selected (decimal 101 100) max_multiplier in
    let result = limbo_draw target float house_edge max_multiplier forced in
    let won = le target result in
    record {
      won = won;
      multiplier = if won then round2 target else whole 0;
      outcome = Outcome.limbo result;
    }

module _ (hmac : Hmac) where
  unfoldable pub resolve_limbo : Number → SeedContext → Number → ForcedResult → Number → RoundResult
  unfolding settle_limbo seeded_float
  resolve_limbo selected seeds house_edge forced max_multiplier =
      settle_limbo selected (seeded_float hmac seeds 0) house_edge forced max_multiplier

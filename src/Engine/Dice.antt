-- ===== src/Engine/Dice.antt =====
-- `diceWinChance` and `resolveDice` of libs/engine/src/rules.ts.
use crispy_enigma.Base.{Bool, true, false, if◌then◌else◌, none, some}
use crispy_enigma.Number.{Number, whole, decimal, add, sub, mul, div, lt, max_of}
use crispy_enigma.Contracts.{
  over, under, DiceSelection, ForcedResult, Outcome, RoundResult, SeedContext,
}
use crispy_enigma.Engine.Rng.{Hmac, seeded_float}
use crispy_enigma.Engine.Odds.{round2, fair_multiplier, clamp}

unfoldable pub dice_win_chance : DiceSelection → Number
unfolding div sub whole
dice_win_chance sel = elim sel.direction [
  | under ↦ div sel.target (whole 100)
  | over ↦ div (sub (whole 100) sel.target) (whole 100)
]

-- The top of the range of rolls.
unfoldable pub top_roll : Number
unfolding decimal
top_roll = decimal 9999 100

-- A roll below the target, and one above it, at a draw `float`.
unfoldable pub roll_below : Number → Number → Number
unfolding round2 mul sub decimal whole
roll_below target float = round2 (mul float (max_of (sub target (decimal 1 100)) (whole 0)))

unfoldable pub roll_above : Number → Number → Number
unfolding round2 mul sub add decimal top_roll
roll_above target float =
    round2 (add (add target (decimal 1 100)) (mul float (sub top_roll target)))

-- A roll at the target or above it.
unfoldable pub roll_from : Number → Number → Number
unfolding round2 mul sub add top_roll
roll_from target float = round2 (add target (mul float (sub top_roll target)))

-- The roll before the last clamp.
unfoldable pub dice_roll : DiceSelection → Number → ForcedResult → Number
unfolding roll_below roll_above roll_from round2 mul whole
dice_roll sel float none = round2 (mul float (whole 100))
dice_roll sel float (some true) = elim sel.direction [
  | under ↦ roll_below sel.target float
  | over ↦ roll_above sel.target float
]
dice_roll sel float (some false) = elim sel.direction [
  | under ↦ roll_from sel.target float
  | over ↦ roll_below sel.target float
]

unfoldable pub dice_won : DiceSelection → Number → Bool
dice_won sel roll = elim sel.direction [ under ↦ lt roll sel.target | over ↦ lt sel.target roll ]

-- `resolveDice` after the draw of its float.
unfoldable pub settle_dice : DiceSelection → Number → Number → ForcedResult → RoundResult
unfolding dice_win_chance fair_multiplier dice_roll dice_won whole top_roll
settle_dice sel float house_edge forced =
    let multiplier = fair_multiplier (dice_win_chance sel) house_edge in
    let roll = clamp (dice_roll sel float forced) (whole 0) top_roll in
    let won = dice_won sel roll in
    record {
      won = won;
      multiplier = if won then multiplier else whole 0;
      outcome = Outcome.dice roll;
    }

module _ (hmac : Hmac) where
  unfoldable pub resolve_dice : DiceSelection → SeedContext → Number → ForcedResult → RoundResult
  unfolding settle_dice seeded_float
  resolve_dice sel seeds house_edge forced =
      settle_dice sel (seeded_float hmac seeds 0) house_edge forced

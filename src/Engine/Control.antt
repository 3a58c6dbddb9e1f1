-- ===== src/Engine/Control.antt =====
-- The control layer of libs/engine/src/resolver.ts: whether a round is rolled honestly, and the cap
-- on a controlled win. `null` and `undefined` are both `none`.
pub mod Precedence
pub mod Cap
use crispy_enigma.Base.{
  ℕ, ◌-◌, Bool, true, false, not, ◌||◌, ◌&&◌, if◌then◌else◌, Option, none, some, List, [], ◌∷◌,
}
use crispy_enigma.Base.Int.{ℤ, pos, ltb_ℤ}
use crispy_enigma.Number.{
  Number, whole, sub, div, le, lt, round, is_finite, is_zero, is_nan, min_of, max_of,
}
use crispy_enigma.Contracts.{ForcedResult, GameSlug, RoundResult, SeedContext}
use crispy_enigma.Engine.Rng.{Hmac, seeded_float}

pub data ControlMode : Type 0 where
  off bias force_win force_loss : ControlMode

pub record ControlRule : Type 0 where
  pub mode : ControlMode
  pub win_rate : Option Number
  pub force_rounds : ℤ
  pub max_win_multiplier : Option Number

abbrev pub is_positive : ℤ → Bool
is_positive z = ltb_ℤ (pos 0) z

module _ (hmac : Hmac) where
  -- The draw of the bias mode, on a cursor of its own.
  unfoldable pub decide_bias : Option Number → SeedContext → ForcedResult
  decide_bias none seeds = none
  decide_bias (some rate) seeds =
      if lt rate (whole 0) || lt (whole 1) rate
      then none
      else some (lt (seeded_float hmac seeds 9_999) rate)

  unfoldable pub decide_mode : ControlMode → ControlRule → SeedContext → ForcedResult
  unfolding decide_bias
  decide_mode off rule seeds = none
  decide_mode bias rule seeds = decide_bias rule.win_rate seeds
  decide_mode force_win rule seeds = if is_positive rule.force_rounds then some true else none
  decide_mode force_loss rule seeds = if is_positive rule.force_rounds then some false else none

  unfoldable pub decide_forced_result : Option ControlRule → SeedContext → ForcedResult
  unfolding decide_mode
  decide_forced_result none seeds = none
  decide_forced_result (some rule) seeds = decide_mode rule.mode rule seeds

  -- Difficulty is a loss percent: 90 means 90% lose.
  unfoldable pub decide_from_difficulty : Number → SeedContext → ForcedResult
  decide_from_difficulty difficulty seeds =
      let loss = round difficulty in
      if not (is_finite loss) || le loss (whole 0)
      then none
      else if le (whole 100) loss
      then some false
      else decide_forced_result
          (some (record {
            mode = bias;
            win_rate = some (div (sub (whole 100) loss) (whole 100));
            force_rounds = pos 0;
            max_win_multiplier = none;
          }))
          seeds

-- `Math.min(100, Math.max(0, Math.round(d)))`
unfoldable pub clamp_percent : Number → Number
clamp_percent d = min_of (whole 100) (max_of (whole 0) (round d))

unfoldable pub game_difficulty_or_zero : Option Number → Number
game_difficulty_or_zero none = whole 0
game_difficulty_or_zero (some d) = if is_finite (round d) then clamp_percent d else whole 0

-- Profile difficulty wins over the game default.
unfoldable pub effective_difficulty : Option Number → Option Number → Number
effective_difficulty none game = game_difficulty_or_zero game
effective_difficulty (some profile) game =
    if is_finite profile then clamp_percent profile else game_difficulty_or_zero game

-- The difficulty columns of a wallet; `game_difficulties` by slug.
pub record Difficulties : Type 0 where
  pub difficulty : Option Number
  pub game_difficulties : GameSlug → Option Number

unfoldable pub general_difficulty : Option Number → Option Number
general_difficulty none = none
general_difficulty (some d) = if is_finite d then some (clamp_percent d) else none

-- Per-game override, then the player's general slider, then none.
unfoldable pub wallet_difficulty_for_game : Difficulties → GameSlug → Option Number
wallet_difficulty_for_game w slug = elim (w.game_difficulties slug) [
  | none ↦ general_difficulty w.difficulty
  | some d ↦ if is_finite d then some (clamp_percent d) else general_difficulty w.difficulty
]

module _ (hmac : Hmac) where
  unfoldable pub resolve_control :
      Option ControlRule → Option Number → Number → SeedContext → ForcedResult
  resolve_control user_rule profile game seeds = elim (decide_forced_result hmac user_rule seeds) [
    | some forced ↦ some forced
    | none ↦ decide_from_difficulty hmac (effective_difficulty profile (some game)) seeds
  ]

unfoldable pub cap_at : RoundResult → Option Number → RoundResult
cap_at result none = result
cap_at result (some top) =
    if is_zero top || is_nan top
    then result
    else if le result.multiplier top
    then result
    else record result { multiplier = top }

-- Caps a win, if the rule has a cap other than 0.
unfoldable pub apply_win_cap : RoundResult → Option ControlRule → RoundResult
apply_win_cap result none = result
apply_win_cap result (some rule) =
    if result.won then cap_at result rule.max_win_multiplier else result

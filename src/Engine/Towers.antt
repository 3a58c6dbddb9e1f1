-- ===== src/Engine/Towers.antt =====
-- `TOWER_DIFFICULTY`, `towersMultiplier` and `buildTowersGrid` of libs/engine/src/rules.ts. The
-- result of `**` on doubles is left to each JavaScript engine, so it is a parameter.
pub mod Grid
use crispy_enigma.Base.{
  ℕ, zero, suc, ◌+◌, ◌-◌, ◌*◌, ◌≤◌, ◌<◌, arith, List, [], ◌∷◌, map, Bool, true, false,
  if◌then◌else◌, take, range_from, sorted, ◌==◌,
}
use crispy_enigma.Number.{Number, whole, decimal, add, sub, mul, div, le, lt}
use crispy_enigma.Contracts.{Difficulty, easy, medium, hard, expert, SeedContext}
use crispy_enigma.Engine.Rng.{Hmac, seeded_float, seeded_shuffle}
use crispy_enigma.Engine.Odds.{round2}

pub record TowerConfig : Type 0 where
  pub tiles : ℕ
  pub mines : ℕ
  pub rows : ℕ

-- `towersConfig`
abbrev pub towers_config : Difficulty → TowerConfig
towers_config easy = record { tiles = 4; mines = 1; rows = 10 }
towers_config medium = record { tiles = 3; mines = 2; rows = 10 }
towers_config hard = record { tiles = 2; mines = 1; rows = 10 }
towers_config expert = record { tiles = 3; mines = 2; rows = 6 }

unfoldable pub easy_trap_vary : Number
unfolding decimal
easy_trap_vary = decimal 45 100

branch_bounds :
    (one three : Bool) → let n : ℕ = if one then 1 else if three then 3 else 2 in (1 ≤ n) × (n < 4)
branch_bounds one three = ground arith

-- The number of traps by the floor's draw.
unfoldable pub easy_traps : Number → ℕ
easy_traps roll =
    if le easy_trap_vary roll then 1 else if lt roll (div easy_trap_vary (whole 2)) then 3 else 2

pub easy_traps_bounds : (roll : Number) → (1 ≤ easy_traps roll) × (easy_traps roll < 4)
unfolding easy_traps
easy_traps_bounds roll =
    branch_bounds (le easy_trap_vary roll) (lt roll (div easy_trap_vary (whole 2)))

unfoldable pub towers_survive_rate : Difficulty → Number
unfolding easy_trap_vary add sub mul div whole
towers_survive_rate easy =
    let vary = easy_trap_vary in
    let half = div vary (whole 2) in
    add
      (add (mul (sub (whole 1) vary) (div (whole 3) (whole 4)))
        (mul half (div (whole 2) (whole 4))))
      (mul half (div (whole 1) (whole 4)))
towers_survive_rate difficulty =
    let config = towers_config difficulty in
    div (whole (config.tiles - config.mines)) (whole config.tiles)

-- `base ** exponent`, for a whole exponent
abbrev pub Power : Type 0
Power = Number → ℕ → Number

module _ (power : Power) where
  unfoldable pub towers_multiplier : Difficulty → ℕ → Number → Number
  unfolding towers_survive_rate round2 sub div whole
  towers_multiplier difficulty climbed house_edge =
      if climbed == 0
      then whole 0
      else round2 (div (sub (whole 1) house_edge) (power (towers_survive_rate difficulty) climbed))

module _ (hmac : Hmac) where
  unfoldable pub trap_count : Difficulty → SeedContext → ℕ → ℕ
  unfolding easy_traps easy_trap_vary div whole seeded_float
  trap_count easy seeds row = easy_traps (seeded_float hmac seeds ((row + 1) * 40))
  trap_count difficulty seeds row = (towers_config difficulty).mines

  -- The traps of one floor.
  unfoldable pub tower_floor : Difficulty → SeedContext → ℕ → List ℕ
  unfolding trap_count seeded_shuffle sorted
  tower_floor difficulty seeds row = sorted (
      take (trap_count difficulty seeds row) (
        seeded_shuffle hmac (range_from 0 (towers_config difficulty).tiles) seeds ((row + 1) * 40)))

  unfoldable pub build_towers_grid : Difficulty → SeedContext → List (List ℕ)
  unfolding tower_floor
  build_towers_grid difficulty seeds =
      map (tower_floor difficulty seeds) (range_from 0 (towers_config difficulty).rows)

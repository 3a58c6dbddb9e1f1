-- ===== src/Engine/Mines.antt =====
-- `minesMultiplier` and `buildMinesGrid` of libs/engine/src/rules.ts.
pub mod Grid
use crispy_enigma.Base.{
  ℕ, zero, suc, ◌+◌, ◌-◌, ◌≤◌, List, [], ◌∷◌, ◌++◌, Bool, true, false, not, if◌then◌else◌, Option,
  none, some, length, take, range_from, includes, keep, sorted, ltb, ◌==◌, min, max,
}
use crispy_enigma.Number.{Number, whole, sub, mul, div}
use crispy_enigma.Contracts.{ForcedResult, SeedContext}
use crispy_enigma.Engine.Rng.{Hmac, seeded_shuffle}
use crispy_enigma.Engine.Odds.{round2}

abbrev pub mines_tile_count : ℕ
mines_tile_count = 25

-- The loop over `i`, for the picks that are left.
unfoldable pub survival_from : ℕ → ℕ → ℕ → Number → Number
unfolding mul div whole
survival_from safe_tiles i zero odds = odds
survival_from safe_tiles i (suc left) odds =
    survival_from safe_tiles (i + 1) left
      (mul odds (div (whole (safe_tiles - i)) (whole (mines_tile_count - i))))

-- Payout after `revealed` safe tiles. A mine count over 25 leaves a negative number of safe tiles,
-- which every count of picks exceeds.
unfoldable pub mines_multiplier : ℕ → ℕ → Number → Number
unfolding survival_from round2 sub div whole
mines_multiplier mine_count revealed house_edge =
    if revealed == 0
    then whole 0
    else if ltb mines_tile_count (mine_count + revealed)
    then whole 0
    else round2 (
        div (sub (whole 1) house_edge)
          (survival_from (mines_tile_count - mine_count) 0 revealed (whole 1)))

abbrev pub hot_spots : List ℕ
hot_spots = 12 ∷ 0 ∷ 4 ∷ 20 ∷ 24 ∷ 6 ∷ 8 ∷ 16 ∷ 18 ∷ []

-- `clamp(Math.round(selection.mineCount), 1, MINES_TILE_COUNT - 1)` of a whole number
abbrev pub clamp_mines : ℕ → ℕ
clamp_mines n = min 24 (max 1 n)

-- The grid laid from a shuffle of the tiles.
unfoldable pub mines_from : List ℕ → ℕ → ForcedResult → List ℕ
unfolding sorted
mines_from shuffled mine_count (some false) =
    let forced_mines = take mine_count hot_spots in
    let remaining = keep (λ p. not (includes forced_mines p)) shuffled in
    sorted (take mine_count (forced_mines ++ take (mine_count - length forced_mines) remaining))
mines_from shuffled mine_count (some true) = sorted (take mine_count shuffled)
mines_from shuffled mine_count none = sorted (take mine_count shuffled)

module _ (hmac : Hmac) where
  unfoldable pub build_mines_grid : ℕ → SeedContext → ForcedResult → List ℕ
  unfolding mines_from seeded_shuffle
  build_mines_grid mine_count seeds forced =
      mines_from (seeded_shuffle hmac (range_from 0 mines_tile_count) seeds 0)
        (clamp_mines mine_count) forced

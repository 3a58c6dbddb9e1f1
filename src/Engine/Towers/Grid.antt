-- ===== src/Engine/Towers/Grid.antt =====
-- The layout of the floors of a Towers round.
use crispy_enigma.Base.{
  ℕ, ◌+◌, ◌*◌, ◌≤◌, ◌<◌, ◌≡◌, List, [], ◌∷◌, map, arith, All, length, range_from, length-range_from,
  length-map, range_from-IsDistinct, range_from-Within, ◌∙◌,
}
use crispy_enigma.Contracts.{Difficulty, easy, medium, hard, expert, SeedContext}
use crispy_enigma.Engine.Rng.{Hmac, seeded_shuffle, seeded_float}
use crispy_enigma.Engine.Rng.Shuffle.{
  length-seeded_shuffle, seeded_shuffle-IsDistinct, seeded_shuffle-Within,
}
use crispy_enigma.Engine.Layout.{IsLayout, sorted-take-IsLayout}
use crispy_enigma.Engine.Towers.{
  towers_config, easy_traps_bounds, trap_count, tower_floor, build_towers_grid,
}

-- A floor of the difficulty that can be lost and can be passed.
abbrev pub IsFloor : Difficulty → List ℕ → Type 0
IsFloor d floor =
    (traps : ℕ) × IsLayout (towers_config d).tiles traps floor
    × (1 ≤ traps)
    × (traps < (towers_config d).tiles)

module _ (hmac : Hmac) (seeds : SeedContext) where
  -- A floor has a trap and a safe tile.
  trap_count_bounds :
      (d : Difficulty) (row : ℕ)
      → (1 ≤ trap_count hmac d seeds row) × (trap_count hmac d seeds row < (towers_config d).tiles)
  unfolding trap_count
  trap_count_bounds easy row = easy_traps_bounds (seeded_float hmac seeds ((row + 1) * 40))
  trap_count_bounds medium row = omega arith
  trap_count_bounds hard row = omega arith
  trap_count_bounds expert row = omega arith

  tower_floor-IsLayout :
      (d : Difficulty) (row : ℕ)
      → IsLayout
          (towers_config d).tiles
          (trap_count hmac d seeds row)
          (tower_floor hmac d seeds row)
  unfolding tower_floor
  tower_floor-IsLayout d row =
      let tiles = (towers_config d).tiles in
      let board = range_from 0 tiles in
      sorted-take-IsLayout tiles (trap_count hmac d seeds row)
        (seeded_shuffle hmac board seeds ((row + 1) * 40))
        (omega (
          arith,
          length-seeded_shuffle hmac seeds board ((row + 1) * 40),
          length-range_from 0 tiles,
          trap_count_bounds d row,
        ))
        (seeded_shuffle-IsDistinct hmac seeds board ((row + 1) * 40)
          (range_from-IsDistinct 0 tiles))
        (seeded_shuffle-Within hmac seeds 0 tiles board ((row + 1) * 40)
          (range_from-Within 0 tiles tiles (omega arith)))

  All-map : (d : Difficulty) (rows : List ℕ) → All (IsFloor d) (map (tower_floor hmac d seeds) rows)
  All-map d [] = tt
  All-map d (row ∷ rows) =
      let (some_trap, some_safe) = trap_count_bounds d row in
      (
        (trap_count hmac d seeds row, tower_floor-IsLayout d row, some_trap, some_safe),
        All-map d rows,
      )

module _ (hmac : Hmac) where
  -- A tower has one floor for each row of its difficulty, and on every floor at least one trap and at
  -- least one safe tile: the traps are different tiles of the floor, in ascending order.
  pub build_towers_grid_lem :
      (d : Difficulty) (seeds : SeedContext)
      → (length (build_towers_grid hmac d seeds) ≡ (towers_config d).rows)
        × All (IsFloor d) (build_towers_grid hmac d seeds)
  unfolding build_towers_grid
  build_towers_grid_lem d seeds =
      let rows = (towers_config d).rows in
      (
        length-map (tower_floor hmac d seeds) (range_from 0 rows) ∙ length-range_from 0 rows,
        All-map hmac seeds d (range_from 0 rows),
      )

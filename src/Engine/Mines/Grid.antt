-- ===== src/Engine/Mines/Grid.antt =====
-- The layout of a Mines grid.
use crispy_enigma.Base.{
  ℕ, ◌-◌, ◌≤◌, ◌≡◌, refl, List, true, false, not, none, some, arith, length, take, range_from,
  includes, keep, length-append, length-take, IsDistinct, Within, and_others, and_others-IsDistinct,
  and_others-Within, range_from-IsDistinct, range_from-Within, no_repeats-IsDistinct,
  all_less-Within, take-IsDistinct, take-Within, all_below, all_below_sound, leb, leb→le,
}
use crispy_enigma.Contracts.{ForcedResult, SeedContext}
use crispy_enigma.Engine.Rng.{Hmac, seeded_shuffle}
use crispy_enigma.Engine.Rng.Shuffle.{
  length-seeded_shuffle, length-keep-seeded_shuffle, seeded_shuffle-IsDistinct,
  seeded_shuffle-Within,
}
use crispy_enigma.Engine.Layout.{IsLayout, sorted-take-IsLayout}
use crispy_enigma.Engine.Mines.{
  mines_from, build_mines_grid, clamp_mines, hot_spots, mines_tile_count,
}

hot_spots-IsDistinct : (n : ℕ) → IsDistinct (take n hot_spots)
hot_spots-IsDistinct n = take-IsDistinct n hot_spots (no_repeats-IsDistinct hot_spots refl)

hot_spots-Within : (n : ℕ) → Within 0 mines_tile_count (take n hot_spots)
hot_spots-Within n =
    take-Within n 0 mines_tile_count hot_spots (all_less-Within mines_tile_count hot_spots refl)

-- The tiles that are no hot spot of the first `n`, of the whole board.
board_left : ℕ → ℕ
board_left n =
    length (keep (λ p. not (includes (take n hot_spots) p)) (range_from 0 mines_tile_count))

board_left_table : all_below 25 (λ n. leb (n - length (take n hot_spots)) (board_left n)) ≡ true
unfolding all_below board_left
board_left_table = refl

-- Enough tiles are left beside the hot spots.
board_left_enough : (n : ℕ) → n ≤ 24 → n - length (take n hot_spots) ≤ board_left n
board_left_enough n h = leb→le _ _ (
    all_below_sound 25 (λ k. leb (k - length (take k hot_spots)) (board_left k)) n board_left_table
      (omega arith))

module _ (xs : List ℕ) (n : ℕ) (h : n ≤ 24) (distinct : IsDistinct xs) where
  forced_loss-IsLayout :
      Within 0 mines_tile_count xs
      → length (keep (λ p. not (includes (take n hot_spots) p)) xs) ≡ board_left n
      → IsLayout mines_tile_count n (mines_from xs n (some false))
  unfolding mines_from
  forced_loss-IsLayout within enough =
      let first = take n hot_spots in
      let left = keep (λ p. not (includes first p)) xs in
      sorted-take-IsLayout mines_tile_count n (and_others first (n - length first) xs)
        (omega (
          arith,
          length-append first (take (n - length first) left),
          length-take (n - length first) left,
          length-take n hot_spots,
          board_left_enough n h,
        ))
        (and_others-IsDistinct first (n - length first) xs (hot_spots-IsDistinct n) distinct)
        (and_others-Within 0 mines_tile_count first (n - length first) xs (hot_spots-Within n)
          within)

  mines_from-IsLayout :
      (forced : ForcedResult)
      → Within 0 mines_tile_count xs
      → length xs ≡ mines_tile_count
      → length (keep (λ p. not (includes (take n hot_spots) p)) xs) ≡ board_left n
      → IsLayout mines_tile_count n (mines_from xs n forced)
  unfolding mines_from
  mines_from-IsLayout none within size enough =
      sorted-take-IsLayout mines_tile_count n xs (omega arith) distinct within
  mines_from-IsLayout (some true) within size enough =
      sorted-take-IsLayout mines_tile_count n xs (omega arith) distinct within
  mines_from-IsLayout (some false) within size enough = forced_loss-IsLayout within enough

module _ (hmac : Hmac) where
  -- Whatever the seeds and the forced result, a grid has exactly the clamped count of mines, all
  -- different, all on the 25 tiles of the board, in ascending order.
  pub build_mines_grid-IsLayout :
      (mine_count : ℕ) (seeds : SeedContext) (forced : ForcedResult)
      → IsLayout mines_tile_count
          (clamp_mines mine_count)
          (build_mines_grid hmac mine_count seeds forced)
  unfolding build_mines_grid board_left
  build_mines_grid-IsLayout mine_count seeds forced =
      let board = range_from 0 mines_tile_count in
      mines_from-IsLayout (seeded_shuffle hmac board seeds 0) (clamp_mines mine_count) (omega arith)
        (seeded_shuffle-IsDistinct hmac seeds board 0 (range_from-IsDistinct 0 mines_tile_count))
        forced
        (seeded_shuffle-Within hmac seeds 0 mines_tile_count board 0
          (range_from-Within 0 25 mines_tile_count (omega arith)))
        (length-seeded_shuffle hmac seeds board 0)
        (length-keep-seeded_shuffle hmac seeds
          (λ p. not (includes (take (clamp_mines mine_count) hot_spots) p)) board 0)

-- ===== src/Engine/Layout.antt =====
-- What a drawn layout of tiles is, for the grids of Mines and Towers.
use crispy_enigma.Base.{
  ℕ, ◌≤◌, ◌≡◌, List, arith, length, take, sorted, length-take, length-sorted, IsSorted, IsDistinct,
  Within, sorted-IsSorted, sorted-take-IsDistinct, sorted-take-Within,
}

-- `n` different ones of the tiles below `tiles`, in ascending order.
pub record IsLayout (tiles n : ℕ) (grid : List ℕ) : Type 0 where
  pub size : length grid ≡ n
  pub in_order : IsSorted grid
  pub distinct : IsDistinct grid
  pub on_board : Within 0 tiles grid

-- The first `n` of distinct tiles, sorted, are a layout.
pub sorted-take-IsLayout :
    (tiles n : ℕ) (xs : List ℕ)
    → n ≤ length xs
    → IsDistinct xs
    → Within 0 tiles xs
    → IsLayout tiles n (sorted (take n xs))
sorted-take-IsLayout tiles n xs h d w = record {
  size = omega (arith, length-sorted (take n xs), length-take n xs);
  in_order = sorted-IsSorted (take n xs);
  distinct = sorted-take-IsDistinct n xs d;
  on_board = sorted-take-Within n 0 tiles xs w;
}

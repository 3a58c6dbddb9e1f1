-- ===== src/Wallet/Columns.antt =====
-- Money columns and the numbers that the code reads from them.
use native.Mathlib.Nat.{mul-le-mul_right, le-div_iff_mul-le, div-lt_iff_lt-mul}
use crispy_enigma.Base.{◌≡◌, refl, ℕ, suc, ◌+◌, ◌-◌, ◌*◌, ◌/◌, ◌^◌, ◌≤◌, ◌<◌, true, arith, lt→ltb}
use crispy_enigma.Base.Int.{ℤ, pos, negsuc, magnitude, signed}
use crispy_enigma.Number.{fin, unit, overflow, finite, decimal_ℤ, to_fixed}
use crispy_enigma.Number.Rounding.{rounded, rounded_close, rounded-le}
use crispy_enigma.Number.Exact.{unit_pos, unit-lt-overflow, IsDouble-whole, finite-eq-fin}
use crispy_enigma.Wallet.Money.{cents, from_cents}

unit_large : 2 ^ 60 < unit
unfolding unit
unit_large = omega arith

-- The double nearest to a count of hundredths, in hundredths and to the nearest whole again.
hundredths : ℕ → ℕ
hundredths c = rounded (c * unit) 100

hundredths-near :
    (c : ℕ)
    → c < 2 ^ 52
    → (c * (2 * unit) ≤ 2 * 100 * hundredths c + unit)
      × (2 * 100 * hundredths c + unit < (c + 1) * (2 * unit))
unfolding hundredths
hundredths-near c h =
    let (up, down) = rounded_close (c * unit) 100 (omega arith) in
    let bound : (c + 1) * unit ≤ 2 ^ 52 * unit = mul-le-mul_right unit (omega arith) in
    (omega (arith, unit_large), omega (arith, unit_large))

hundredths_back : (c : ℕ) → c < 2 ^ 52 → (2 * 100 * hundredths c + unit) / (2 * unit) ≡ c
hundredths_back c h =
    let (low, high) = hundredths-near c h in
    let steps : 0 < 2 * unit = omega (arith, unit_pos) in
    let below = (le-div_iff_mul-le steps).1 low in
    let above = (div-lt_iff_lt-mul steps).1 high in omega arith

hundredths-lt-overflow : (c : ℕ) → c < 2 ^ 52 → hundredths c < overflow
unfolding hundredths
hundredths-lt-overflow c h =
    let bound : c * unit ≤ 2 ^ 52 * unit = mul-le-mul_right unit (omega arith) in
    let small : rounded (c * unit) 100 ≤ 2 ^ 52 * unit =
      rounded-le (c * unit) 100 (2 ^ 52 * unit) (omega arith)
        (IsDouble-whole (2 ^ 52) (omega arith)) (omega arith) in
    omega (arith, unit-lt-overflow (2 ^ 52) (omega arith))

hundredths_pos : (n : ℕ) → suc n < 2 ^ 52 → 0 < hundredths (suc n)
hundredths_pos n h = let (low, high) = hundredths-near (suc n) h in omega (arith, unit_pos)

cents-fin_pos : (m : ℕ) → cents (fin (pos m)) ≡ pos ((2 * 100 * m + unit) / (2 * unit))
unfolding cents to_fixed
cents-fin_pos m = refl

from_cents-pos : (c : ℕ) → c < 2 ^ 52 → from_cents (pos c) ≡ fin (pos (hundredths c))
unfolding from_cents decimal_ℤ hundredths
from_cents-pos c h = finite-eq-fin (hundredths c) (hundredths-lt-overflow c h)

cents-fin_negsuc :
    (m : ℕ) → cents (fin (negsuc m)) ≡ signed true ((2 * 100 * suc m + unit) / (2 * unit))
unfolding cents to_fixed
cents-fin_negsuc m = refl

finite-eq-negsuc : (m : ℕ) → 0 < m → m < overflow → finite true m ≡ fin (negsuc (m - 1))
unfolding finite
finite-eq-negsuc m p h = rw (lt→ltb m overflow h) (ground arith)

from_cents-negsuc :
    (n : ℕ) → suc n < 2 ^ 52 → from_cents (negsuc n) ≡ fin (negsuc (hundredths (suc n) - 1))
unfolding from_cents decimal_ℤ hundredths
from_cents-negsuc n h =
    finite-eq-negsuc (hundredths (suc n)) (hundredths_pos n h) (hundredths-lt-overflow (suc n) h)

-- A column with two decimals, below 2 ^ 52 cents in magnitude, that is read as a double and written
-- back with `toFixed(2)` is the same.
pub cents-from_cents : (z : ℤ) → magnitude z < 2 ^ 52 → cents (from_cents z) ≡ z
cents-from_cents (pos c) h =
    rw (from_cents-pos c h, cents-fin_pos (hundredths c), hundredths_back c h) refl
cents-from_cents (negsuc n) h =
    let r = hundredths (suc n) in
    let same : suc (r - 1) ≡ r = omega (arith, hundredths_pos n h) in
    rw (from_cents-negsuc n h, cents-fin_negsuc (r - 1), same, hundredths_back (suc n) h)
      (ground arith)

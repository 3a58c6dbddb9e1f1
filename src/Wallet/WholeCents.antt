-- ===== src/Wallet/WholeCents.antt =====
-- `roundMoney` gives whole cents, and so does `parseStake`.
use crispy_enigma.Base.{ℕ, zero, suc, ◌-◌, ◌*◌, ◌<◌, ◌≡◌, refl, ◌∙◌, Bool, true, false, arith}
use crispy_enigma.Base.Int.{ℤ, pos, negsuc, is_negative, magnitude, signed}
use crispy_enigma.Number.{
  Number, nan, infinite, fin, unit, overflow, finite, decimal_ℤ, whole, mul, div, round, round_ℤ,
  le, is_finite,
}
use crispy_enigma.Number.Rounding.{rounded, rounded-le}
use crispy_enigma.Number.Exact.{unit_pos, whole-eq-fin, div-fin}
use crispy_enigma.Number.Scaling.{rounded_scale}
use crispy_enigma.Wallet.Money.{round_money, from_cents}
use crispy_enigma.Wallet.Reply.{ok}
use crispy_enigma.Wallet.Guards.{parse_stake}
use crispy_enigma.Wallet.Stakes.{parse_stake-IsStake}

div-negsuc :
    (x y : ℕ) → 0 < y → div (fin (negsuc x)) (fin (pos y)) ≡ finite true (rounded (suc x * unit) y)
unfolding div
div-negsuc x zero h = elim h [ ]
div-negsuc x (suc y) h = ground arith

signed-negsuc : (m : ℕ) → 0 < m → signed true m ≡ negsuc (m - 1)
signed-negsuc m h = ground arith

-- A whole number over a hundred is that many cents.
div_hundred :
    (z : ℤ) → div (fin (signed (is_negative z) (magnitude z * unit))) (whole 100) ≡ decimal_ℤ z 100
unfolding decimal_ℤ
div_hundred (pos n) =
    rw
      (
        whole-eq-fin 100 (omega arith),
        div-fin (n * unit) (100 * unit) (omega (arith, unit_pos)),
        rounded_scale (n * unit) 100 unit unit_pos,
      )
      refl
div_hundred (negsuc n) =
    let m = suc n * unit in
    let above : 0 < m = omega (arith, unit_pos) in
    let back : suc (m - 1) ≡ m = omega (arith, above) in
    rw
      (
        whole-eq-fin 100 (omega arith),
        signed-negsuc m above,
        div-negsuc (m - 1) (100 * unit) (omega (arith, unit_pos)),
        back,
        rounded_scale m 100 unit unit_pos,
      )
      refl

nan_over : (y : ℕ) → is_finite (div nan (fin (pos y))) ≡ false
unfolding div
nan_over y = refl

infinite_over : (s : Bool) (y : ℕ) → is_finite (div (infinite s) (fin (pos y))) ≡ false
unfolding div
infinite_over s y = refl

round_cents :
    (y : Number)
    → is_finite (div (round y) (whole 100)) ≡ true
    → (z : ℤ) × (div (round y) (whole 100) ≡ decimal_ℤ z 100)
unfolding round
round_cents nan h =
    let impossible = rw (whole-eq-fin 100 (omega arith), nan_over (100 * unit)) at h in cc
round_cents (infinite s) h =
    let impossible = rw (whole-eq-fin 100 (omega arith), infinite_over s (100 * unit)) at h in cc
round_cents (fin x) h = (round_ℤ x, div_hundred (round_ℤ x))

round_money-from_cents :
    (value : Number)
    → is_finite (round_money value) ≡ true
    → (z : ℤ) × (round_money value ≡ from_cents z)
unfolding round_money from_cents
round_money-from_cents value h = round_cents (mul value (whole 100)) h

finite_le : (m : ℕ) → le (finite true m) (whole 0) ≡ true
unfolding finite
finite_le m = rw (whole-eq-fin 0 (omega arith)) (ground arith)

zero_le : le (from_cents (pos 0)) (whole 0) ≡ true
unfolding from_cents decimal_ℤ finite overflow
zero_le =
    let none_left : rounded (0 * unit) 100 ≡ 0 =
      omega (arith, rounded-le (0 * unit) 100 0 (omega arith) (0, omega arith) (omega arith)) in
    rw (none_left, whole-eq-fin 0 (omega arith)) refl

above_zero-pos : (z : ℤ) → le (from_cents z) (whole 0) ≡ false → (k : ℕ) × (0 < k) × (z ≡ pos k)
unfolding from_cents decimal_ℤ
above_zero-pos (pos zero) h = let top = zero_le in cc
above_zero-pos (pos (suc n)) h = (suc n, omega arith, refl)
above_zero-pos (negsuc n) h = let top = finite_le (rounded (suc n * unit) 100) in cc

-- A stake that is accepted is the double of a whole number of cents, at least one.
pub parse_stake-from_cents :
    (stake_input min_bet max_bet stake : Number)
    → parse_stake stake_input min_bet max_bet ≡ ok stake
    → (k : ℕ) × (0 < k) × (stake ≡ from_cents (pos k))
parse_stake-from_cents stake_input min_bet max_bet stake h =
    let (same, fits) = parse_stake-IsStake stake_input min_bet max_bet stake h in
    let (z, whole_cents) = round_money-from_cents stake_input (rw same at fits.finite) in
    let value : stake ≡ from_cents z = same ∙ whole_cents in
    let (k, above, e) = above_zero-pos z (rw value at fits.above_zero) in (k, above, rw e at value)

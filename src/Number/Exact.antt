-- ===== src/Number/Exact.antt =====
-- The operations where no rounding happens: whole numbers, and numbers of few bits.
use native.Mathlib.Nat.{mul-div_cancel, le_of_mul-le-mul_right, pow-suc}
use crispy_enigma.Base.{
  ℕ, zero, suc, ◌+◌, ◌*◌, ◌/◌, ◌^◌, ◌≤◌, ◌<◌, ◌≡◌, refl, inl, inr, false, arith, ap, lt→ltb,
  lt_or_le,
}
use crispy_enigma.Base.Int.{pos}
use crispy_enigma.Number.{fin, unit, overflow, finite, whole, decimal, mul, div, floor, to_ℕ}
use crispy_enigma.Number.Rounding.{
  rounded, quantum, quantum_from, IsDouble, rounded_exact, rounded_close,
}

pub unit_pos : 0 < unit
unfolding unit
unit_pos = omega arith

quantum_from-zero : (x : ℕ) → quantum_from 0 x ≡ 1
unfolding quantum_from
quantum_from-zero x = refl

quantum_from-lt : (f x : ℕ) → x < 2 ^ 53 → quantum_from f x ≡ 1
unfolding quantum_from
quantum_from-lt zero x h = refl
quantum_from-lt (suc f) x h = ground arith

quantum_from-le : (f x : ℕ) → 2 ^ 53 ≤ x → quantum_from (suc f) x ≡ 2 * quantum_from f (x / 2)
unfolding quantum_from
quantum_from-le f x h = ground arith

double-mul : (s t q r : ℕ) → 2 ^ s ≡ t * q → r ≡ 2 * q → 2 ^ suc s ≡ t * r
double-mul s t q r e twice = rw (twice, pow-suc 2 s) (omega arith)

-- The quantum of a number of at most 53 bits divides the power of two that shifts it.
quantum_from_shift :
    (f x m s : ℕ) → x ≡ m * 2 ^ s → m < 2 ^ 53 → (t : ℕ) × (2 ^ s ≡ t * quantum_from f x)
quantum_from_shift zero x m s e h = (2 ^ s, rw (quantum_from-zero x) (omega arith))
quantum_from_shift (suc f) x m zero e h =
    let small : m * 2 ^ 0 ≡ m = omega arith in
    (1, rw (quantum_from-lt (suc f) x (omega arith)) (omega arith))
quantum_from_shift (suc f) x m (suc s) e h = elim (lt_or_le x (2 ^ 53)) [
  | inl small ↦ (2 ^ suc s, rw (quantum_from-lt (suc f) x small) (omega arith))
  | inr large ↦
      let half : x / 2 ≡ m * 2 ^ s = omega (arith, ap (λ (p : ℕ). m * p) (pow-suc 2 s)) in
      let (t, same) = quantum_from_shift f (x / 2) m s half h in
      (t, double-mul s t _ _ same (quantum_from-le f x large))
]

-- What has at most 53 bits is a double.
pub IsDouble-shift : (m s : ℕ) → m < 2 ^ 53 → IsDouble (m * 2 ^ s)
unfolding quantum
IsDouble-shift m s h =
    let x = m * 2 ^ s in
    let (t, e) = quantum_from_shift x x m s refl h in
    (m * t, omega (arith, ap (λ (p : ℕ). m * p) e))

pub IsDouble-whole : (n : ℕ) → n < 2 ^ 53 → IsDouble (n * unit)
unfolding unit
IsDouble-whole n h = IsDouble-shift n 1074 h

pub finite-eq-fin : (m : ℕ) → m < overflow → finite false m ≡ fin (pos m)
unfolding finite
finite-eq-fin m h = rw (lt→ltb m overflow h)

pub unit-lt-overflow : (n : ℕ) → n ≤ 2 ^ 53 → n * unit < overflow
unfolding unit overflow
unit-lt-overflow n h = omega arith

pub unit-le-overflow : (n : ℕ) → n < 2 ^ 53 → n * unit ≤ overflow
unfolding unit overflow
unit-le-overflow n h = omega arith

-- A whole number below 2 ^ 53 is a double.
pub whole-eq-fin : (n : ℕ) → n < 2 ^ 53 → whole n ≡ fin (pos (n * unit))
unfolding whole decimal
whole-eq-fin n h =
    let exact : rounded (n * unit) 1 ≡ n * unit =
      let one : n * unit * 1 ≡ n * unit = omega arith in
      rw one at (rounded_exact (n * unit) 1 (omega arith) (IsDouble-whole n h)) in
    rw exact (finite-eq-fin _ (unit-lt-overflow n (omega arith)))

-- A product with a number of few bits, in least steps.
pub rounded_near : (x d : ℕ) → 0 < d → 2 ^ 53 * rounded (x * d) d ≤ 2 ^ 53 * x + x + 2 ^ 52
rounded_near x d h =
    let (up, _) = rounded_close (x * d) d h in le_of_mul-le-mul_right {k = d} (omega arith) h

-- The operations on magnitudes.
pub mul-fin : (x y : ℕ) → mul (fin (pos x)) (fin (pos y)) ≡ finite false (rounded (x * y) unit)
unfolding mul
mul-fin x y = refl

pub div-fin :
    (x y : ℕ) → 0 < y → div (fin (pos x)) (fin (pos y)) ≡ finite false (rounded (x * unit) y)
unfolding div
div-fin x zero h = elim h [ ]
div-fin x (suc y) h = ground arith

pub floor-fin : (x : ℕ) → floor (fin (pos x)) ≡ fin (pos (x / unit * unit))
unfolding floor
floor-fin x = refl

pub to_ℕ-floor : (x : ℕ) → to_ℕ (floor (fin (pos x))) ≡ x / unit
unfolding to_ℕ
to_ℕ-floor x = rw floor-fin (mul-div_cancel (x / unit) unit_pos)

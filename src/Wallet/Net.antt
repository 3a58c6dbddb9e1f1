-- ===== src/Wallet/Net.antt =====
-- The net of a bet, in cents, takes at most the stake off a balance.
use crispy_enigma.Base.{
  ◌≡◌, refl, inl, inr, ℕ, zero, suc, ◌+◌, ◌-◌, ◌*◌, ◌/◌, ◌≤◌, true, false, Bool-cases, lt_or_le,
  ltb, arith,
}
use crispy_enigma.Base.Int.{ℤ, pos, negsuc, ◌+ℤ◌, ◌≤ℤ◌, signed, +ℤ_parts}
use crispy_enigma.Number.{
  Number, nan, infinite, fin, unit, overflow, finite, whole, lt, le, sub, is_finite, round, mul,
  to_fixed,
}
use crispy_enigma.Number.Rounding.{rounded, IsDouble, rounded-le, div_mono}
use crispy_enigma.Number.Exact.{unit_pos}
use crispy_enigma.Number.Doubles.{IsRepresentable, div-IsRepresentable, sub-fin_le, sub-fin_lt}
use crispy_enigma.Wallet.Money.{cents, round_money}

pub round_money-IsRepresentable : (value : Number) → IsRepresentable (round_money value)
unfolding round_money
round_money-IsRepresentable value = div-IsRepresentable (round (mul value (whole 100))) (whole 100)

-- A count of least steps in whole cents.
in_cents : ℕ → ℕ
in_cents m = (2 * 100 * m + unit) / (2 * unit)

in_cents_mono : (m n : ℕ) → m ≤ n → in_cents m ≤ in_cents n
unfolding in_cents
in_cents_mono m n h =
    div_mono (2 * 100 * m + unit) (2 * 100 * n + unit) (2 * unit) (omega (arith, unit_pos))
      (omega arith)

cents-fin : (m : ℕ) → cents (fin (pos m)) ≡ pos (in_cents m)
unfolding cents to_fixed in_cents
cents-fin m = refl

cents-finite_pos : (m : ℕ) → pos 0 ≤ℤ cents (finite false m)
unfolding finite cents to_fixed
cents-finite_pos m = elim (Bool-cases (ltb m overflow)) [
  | inl e ↦ rw e (omega arith)
  | inr e ↦ rw e (omega arith)
]

less-itself : (c : ℕ) → pos 0 ≤ℤ pos c +ℤ signed true c
less-itself c = ground (arith, +ℤ_parts (pos c) (signed true c))

cents-fin_negsuc : (m : ℕ) → cents (fin (negsuc m)) ≡ signed true (in_cents (suc m))
unfolding cents to_fixed in_cents
cents-fin_negsuc m = refl

cents-fin_signed : (m : ℕ) → pos 0 ≤ℤ pos (in_cents m) +ℤ cents (fin (signed true m))
cents-fin_signed zero =
    rw (cents-fin 0) (ground (arith, +ℤ_parts (pos (in_cents 0)) (pos (in_cents 0))))
cents-fin_signed (suc n) =
    let minus : signed true (suc n) ≡ negsuc n = ground arith in
    rw (minus, cents-fin_negsuc n) (less-itself (in_cents (suc n)))

cents-infinite : cents (infinite true) ≡ pos 0
unfolding cents to_fixed
cents-infinite = refl

cents-finite_neg : (m : ℕ) → pos 0 ≤ℤ pos (in_cents m) +ℤ cents (finite true m)
unfolding finite
cents-finite_neg m = elim (Bool-cases (ltb m overflow)) [
  | inl e ↦ rw e (cents-fin_signed m)
  | inr e ↦ rw (e, cents-infinite) (ground (arith, +ℤ_parts (pos (in_cents m)) (pos 0)))
]

more-cents : (c d : ℕ) (z : ℤ) → c ≤ d → pos 0 ≤ℤ pos c +ℤ z → pos 0 ≤ℤ pos d +ℤ z
more-cents c d z h k = ground (arith, +ℤ_parts (pos c) z, +ℤ_parts (pos d) z)

net-fin :
    (p s : ℕ) → IsDouble s → pos 0 ≤ℤ cents (fin (pos s)) +ℤ cents (sub (fin (pos p)) (fin (pos s)))
net-fin p s d = elim (lt_or_le p s) [
  | inl lt ↦
      let m = rounded (s - p) 1 in
      let below : m ≤ s = rounded-le (s - p) 1 s (omega arith) d (omega arith) in
      rw (sub-fin_lt p s lt, cents-fin s)
        (more-cents (in_cents m) (in_cents s) _ (in_cents_mono m s below) (cents-finite_neg m))
  | inr le ↦
      let up = cents-finite_pos (rounded (p - s) 1) in
      rw (sub-fin_le p s le, cents-fin s)
        (ground (arith, up, +ℤ_parts (pos (in_cents s)) (cents (finite false (rounded (p - s) 1)))))
]

whole_zero : whole 0 ≡ fin (pos 0)
unfolding whole
whole_zero = refl

-- For a payout that is a number and not below zero, and a stake above zero.
pub net-cents :
    (payout stake : Number)
    → is_finite payout ≡ true
    → lt payout (whole 0) ≡ false
    → is_finite stake ≡ true
    → le stake (whole 0) ≡ false
    → IsRepresentable stake
    → pos 0 ≤ℤ cents stake +ℤ cents (sub payout stake)
net-cents (fin (pos p)) (fin (pos s)) a b c d e = net-fin p s e
net-cents (fin (negsuc p)) (fin s) a b c d e = let impossible = rw whole_zero at b in ground arith
net-cents (fin p) (fin (negsuc s)) a b c d e = let impossible = rw whole_zero at d in ground arith
net-cents nan stake a b c d e = cc
net-cents (infinite t) stake a b c d e = cc
net-cents (fin p) nan a b c d e = cc
net-cents (fin p) (infinite t) a b c d e = cc

-- ===== src/Number/Signs.antt =====
-- Numbers without a minus.
use crispy_enigma.Base.{
  ◌≡◌, refl, ℕ, Bool, true, false, Bool-cases, inl, inr, ltb, ◌==◌, if◌then◌else◌, arith,
}
use crispy_enigma.Base.Int.{pos, negsuc}
use crispy_enigma.Number.{
  Number, nan, infinite, fin, finite, decimal_ℤ, has_minus, mul, mul_infinite, div, div_zero,
  div_infinite, round, overflow,
}

pub finite-has_minus : (m : ℕ) → has_minus (finite false m) ≡ false
unfolding finite
finite-has_minus m = elim (Bool-cases (ltb m overflow)) [ inl e ↦ rw e refl | inr e ↦ rw e refl ]

pub decimal_ℤ-has_minus : (c k : ℕ) → has_minus (decimal_ℤ (pos c) k) ≡ false
unfolding decimal_ℤ
decimal_ℤ-has_minus c k = finite-has_minus _

if-has_minus :
    (test : Bool) (a b : Number)
    → has_minus a ≡ false
    → has_minus b ≡ false
    → has_minus (if test then a else b) ≡ false
if-has_minus true a b h k = h
if-has_minus false a b h k = k

pub mul-has_minus :
    (a b : Number) → has_minus a ≡ false → has_minus b ≡ false → has_minus (mul a b) ≡ false
unfolding mul mul_infinite
mul-has_minus (fin (pos x)) (fin (pos y)) h k = finite-has_minus _
mul-has_minus (fin (negsuc x)) b h k = cc
mul-has_minus (fin (pos x)) (fin (negsuc y)) h k = cc
mul-has_minus (fin (pos x)) nan h k = refl
mul-has_minus (fin (pos x)) (infinite t) h k = ground arith
mul-has_minus nan b h k = refl
mul-has_minus (infinite s) nan h k = ground arith
mul-has_minus (infinite s) (infinite t) h k = ground arith
mul-has_minus (infinite s) (fin y) h k = ground arith

pub round-has_minus : (a : Number) → has_minus a ≡ false → has_minus (round a) ≡ false
unfolding round
round-has_minus (fin (pos x)) h = refl
round-has_minus (fin (negsuc x)) h = cc
round-has_minus nan h = refl
round-has_minus (infinite s) h = h

pub div-has_minus :
    (a b : Number) → has_minus a ≡ false → has_minus b ≡ false → has_minus (div a b) ≡ false
unfolding div div_zero div_infinite
div-has_minus (fin (pos x)) (fin (pos y)) h k =
    if-has_minus (y == 0) _ _ (if-has_minus (x == 0) _ _ refl refl) (finite-has_minus _)
div-has_minus (fin (negsuc x)) b h k = cc
div-has_minus (fin (pos x)) (fin (negsuc y)) h k = cc
div-has_minus (fin (pos x)) nan h k = refl
div-has_minus (fin (pos x)) (infinite t) h k = refl
div-has_minus nan b h k = refl
div-has_minus (infinite s) nan h k = refl
div-has_minus (infinite s) (infinite t) h k = refl
div-has_minus (infinite s) (fin (pos y)) h k = ground arith
div-has_minus (infinite s) (fin (negsuc y)) h k = cc

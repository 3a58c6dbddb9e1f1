-- ===== src/Number/Scaling.antt =====
-- Rounding a fraction that is not in lowest terms.
use native.Mathlib.Nat.{mul-div-mul_right, mul-le-mul_right, mul-lt-mul_of_pos_left, div-add-mod}
use crispy_enigma.Base.{
  ℕ, ◌+◌, ◌*◌, ◌/◌, ◌%◌, ◌≤◌, ◌<◌, ◌≡◌, refl, ap, ltb, inl, inr, lt_or_le, arith, lt→ltb,
}
use crispy_enigma.Number.Rounding.{nearest, quantum, rounded}

ltb_scale : (a b c : ℕ) → 0 < c → ltb (a * c) (b * c) ≡ ltb a b
ltb_scale a b c h = elim (lt_or_le a b) [
  | inl lt ↦
      let scaled : a * c < b * c = omega (arith, mul-lt-mul_of_pos_left lt h) in
      rw (lt→ltb a b lt, lt→ltb (a * c) (b * c) scaled) refl
  | inr le ↦ let scaled : b * c ≤ a * c = mul-le-mul_right c le in ground arith
]

mod_scale : (n d c : ℕ) → 0 < c → n * c % (d * c) ≡ n % d * c
mod_scale n d c h =
    let q : n * c / (d * c) ≡ n / d = mul-div-mul_right n d h in
    let short = div-add-mod n d in
    let long : d * c * (n / d) + n * c % (d * c) ≡ n * c = rw q at (div-add-mod (n * c) (d * c)) in
    let scaled : (d * (n / d) + n % d) * c ≡ n * c = ap (λ (x : ℕ). x * c) short in
    omega (arith, long, scaled)

nearest_scale : (n d c : ℕ) → 0 < c → nearest (n * c) (d * c) ≡ nearest n d
unfolding nearest
nearest_scale n d c h =
    let r = n % d in
    let twice : 2 * (r * c) ≡ 2 * r * c = omega arith in
    rw
      (
        mul-div-mul_right n d h,
        mod_scale n d c h,
        twice,
        ltb_scale (2 * r) d c h,
        ltb_scale d (2 * r) c h,
      )
      refl

-- A common factor of the fraction changes nothing.
pub rounded_scale : (n d c : ℕ) → 0 < c → rounded (n * c) (d * c) ≡ rounded n d
unfolding rounded
rounded_scale n d c h =
    let q = quantum (n / d) in
    let moved : d * c * q ≡ d * q * c = omega arith in
    rw (mul-div-mul_right n d h, moved, nearest_scale n (d * q) c h) refl

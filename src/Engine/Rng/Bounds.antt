-- ===== src/Engine/Rng/Bounds.antt =====
-- The range of the draws, with the rounding of the product.
use native.Mathlib.Nat.{
  div-lt_iff_lt-mul, one-le-pow, mul-le-mul_left, mul-le-mul_right, pow-suc, lt_of_lt_of_le,
}
use Prim.Native.String.{String}
use crispy_enigma.Base.{
  ℕ, zero, suc, ◌+◌, ◌-◌, ◌*◌, ◌^◌, ◌≤◌, ◌<◌, ◌≡◌, refl, List, [], ◌∷◌, arith, All, take, length,
  length-take,
}
use crispy_enigma.Base.Int.{pos}
use crispy_enigma.Number.{fin, unit, overflow, whole, mul, div, floor, to_ℕ}
use crispy_enigma.Number.Rounding.{rounded, rounded_exact}
use crispy_enigma.Number.Exact.{
  unit_pos, unit-le-overflow, IsDouble-shift, finite-eq-fin, whole-eq-fin, rounded_near, div-fin,
  mul-fin, to_ℕ-floor,
}
use crispy_enigma.Contracts.{SeedContext}
use crispy_enigma.Engine.Rng.{Hmac, parse_hex, draw_bits, seeded_float, draw_below, seeded_int}

abbrev pub IsHex : List ℕ → Type 0
IsHex ds = All (λ d. d < 16) ds

take-IsHex : (n : ℕ) (ds : List ℕ) → IsHex ds → IsHex (take n ds)
take-IsHex zero ds h = tt
take-IsHex (suc n) [] h = tt
take-IsHex (suc n) (d ∷ ds) h = (h.0, take-IsHex n ds h.1)

-- Hex digits that follow a number below `b` give one below `b * 16 ^ n`.
parse_hex-lt :
    (ds : List ℕ) (n b acc : ℕ) → IsHex ds → length ds ≤ n → acc < b → parse_hex acc ds < b * 16 ^ n
unfolding parse_hex
parse_hex-lt [] n b acc h len lt =
    ground (arith, one-le-pow n 16, mul-le-mul_left b (one-le-pow n 16 (omega arith)))
parse_hex-lt (d ∷ ds) zero b acc h len lt = absurd (omega arith)
parse_hex-lt (d ∷ ds) (suc n) b acc h len lt =
    let more = parse_hex-lt ds n (b * 16) (acc * 16 + d) h.1 (omega arith) (omega (arith, h.0)) in
    rw pow-suc (omega (arith, more))

-- The float of `n` draw bits, exactly.
abbrev pub float_of : ℕ → ℕ
float_of n = n * 2 ^ 1022

div-whole : (n : ℕ) → n < 2 ^ 52 → div (whole n) (whole (2 ^ 52)) ≡ fin (pos (float_of n))
unfolding unit overflow
div-whole n h =
    let exact : rounded (n * unit * unit) (2 ^ 52 * unit) ≡ float_of n =
      let scaled : float_of n * (2 ^ 52 * unit) ≡ n * unit * unit = omega arith in
      rw scaled at (
        rounded_exact (float_of n) (2 ^ 52 * unit) (omega arith)
          (IsDouble-shift n 1022 (omega arith))) in
    rw (whole-eq-fin n (omega arith), whole-eq-fin (2 ^ 52) (omega arith))
      (rw (div-fin (n * unit) (2 ^ 52 * unit) (omega arith), exact)
        (finite-eq-fin (float_of n) (omega arith)))

-- A count of `k` scaled by `u` leaves room for the rounding.
room :
    (n k u r : ℕ)
    → n < 2 ^ 52
    → 0 < k * u
    → 2 ^ 53 * r ≤ 2 ^ 53 * (n * k * u) + n * k * u + 2 ^ 52
    → r < 2 ^ 52 * (k * u)
room n k u r h some_room near =
    let below : n * (k * u) + k * u ≤ 2 ^ 52 * (k * u) =
      omega (arith, mul-le-mul_right (k * u) h) in
    let same : n * k * u ≡ n * (k * u) = omega arith in omega arith

-- A product with a count stays below the count, rounded as it is.
product-lt : (n k : ℕ) → n < 2 ^ 52 → 0 < k → rounded (n * k * 2 ^ 1022 * unit) unit < k * unit
unfolding unit
product-lt n k h pos_k =
    let r = rounded (n * k * 2 ^ 1022 * unit) unit in
    omega
      (arith, room n k (2 ^ 1022) r h (omega arith) (rounded_near (n * k * 2 ^ 1022) unit unit_pos))

bits-lt : (ds : List ℕ) → IsHex ds → parse_hex 0 (take 13 ds) < 2 ^ 52
bits-lt ds h =
    parse_hex-lt (take 13 ds) 13 1 0 (take-IsHex 13 ds h) (omega (arith, length-take 13 ds))
      (omega arith)

-- The whole part of a float of `n` draw bits times a count.
scale-lt :
    (n k : ℕ)
    → n < 2 ^ 52
    → 0 < k
    → k < 2 ^ 53
    → to_ℕ (floor (mul (fin (pos (float_of n))) (whole k))) < k
scale-lt n k h pos_k small =
    let swap : float_of n * (k * unit) ≡ n * k * 2 ^ 1022 * unit = omega arith in
    let below = product-lt n k h pos_k in
    rw
      (
        whole-eq-fin k small,
        mul-fin,
        swap,
        finite-eq-fin _ (lt_of_lt_of_le below (unit-le-overflow k small)),
        to_ℕ-floor,
      )
      ((div-lt_iff_lt-mul unit_pos).1 below)

module _ (hmac : Hmac) where
  -- What the code relies on: a digest is written in hex digits.
  abbrev pub Digests : Type 0
  Digests = (key text : String) → IsHex (hmac key text)

  pub draw_bits-lt : (s : SeedContext) (cursor : ℕ) → Digests → draw_bits hmac s cursor < 2 ^ 52
  unfolding draw_bits
  draw_bits-lt s cursor hex = bits-lt (hmac _ _) (hex _ _)

  -- The float is the fraction of the draw bits over 2 ^ 52, with no rounding.
  pub seeded_float_lem :
      (s : SeedContext) (cursor : ℕ)
      → Digests
      → seeded_float hmac s cursor ≡ fin (pos (float_of (draw_bits hmac s cursor)))
  unfolding seeded_float
  seeded_float_lem s cursor hex = div-whole (draw_bits hmac s cursor) (draw_bits-lt s cursor hex)

  draw_below_lem :
      (s : SeedContext) (cursor k : ℕ)
      → draw_below hmac s cursor k ≡ to_ℕ (floor (mul (seeded_float hmac s cursor) (whole k)))
  unfolding draw_below
  draw_below_lem s cursor k = refl

  -- `Math.floor(float * k)` is below `k`.
  pub draw_below-lt :
      (s : SeedContext) (cursor k : ℕ)
      → Digests
      → 0 < k
      → k < 2 ^ 53
      → draw_below hmac s cursor k < k
  draw_below-lt s cursor k hex pos_k small =
      rw (draw_below_lem, seeded_float_lem s cursor hex)
        (scale-lt (draw_bits hmac s cursor) k (draw_bits-lt s cursor hex) pos_k small)

  -- `seededInt` draws from its closed range.
  pub seeded_int_bounds :
      (s : SeedContext) (low high cursor : ℕ)
      → Digests
      → low ≤ high
      → high < 2 ^ 52
      → (low ≤ seeded_int hmac s low high cursor) × (seeded_int hmac s low high cursor ≤ high)
  unfolding seeded_int
  seeded_int_bounds s low high cursor hex h small =
      let below = draw_below-lt s cursor (high + 1 - low) hex (omega arith) (omega arith) in
      (omega arith, omega (arith, below))

  -- A draw of an index of a list that is not empty.
  pub seeded_index-lt :
      (s : SeedContext) (n cursor : ℕ)
      → Digests
      → 1 ≤ n
      → n < 2 ^ 52
      → seeded_int hmac s 0 (n - 1) cursor < n
  seeded_index-lt s n cursor hex h k =
      omega (arith, (seeded_int_bounds s 0 (n - 1) cursor hex (omega arith) (omega arith)).1)

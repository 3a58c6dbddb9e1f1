-- ===== src/Number/Rounding.antt =====
-- Rounding of a fraction of whole steps to 53 significant bits, the rule of every operation on
-- doubles. A magnitude is a natural number of the least steps of a double, 2 ^ -1074.
use native.Mathlib.Nat.{
  mul-le-mul_right, div-add-mod, div-add-mod', mod-lt, le-div_iff_mul-le, mul-div_cancel,
  mul-mod_left, div-lt_iff_lt-mul,
}
use crispy_enigma.Base.{
  ℕ, zero, suc, ◌+◌, ◌*◌, ◌/◌, ◌%◌, ◌^◌, ◌≤◌, ◌<◌, ◌≡◌, ◌⊎◌, inl, inr, lt_or_le, true, false, arith,
  ltb, ◌==◌, if◌then◌else◌, sym, ap,
}

-- The weight of the last of 53 bits of `x`, a power of two; the first argument is fuel.
unfoldable pub quantum_from : ℕ → ℕ → ℕ
quantum_from zero x = 1
quantum_from (suc f) x = elim (ltb x (2 ^ 53)) [ true ↦ 1 | false ↦ 2 * quantum_from f (x / 2) ]

unfoldable pub quantum : ℕ → ℕ
quantum x = quantum_from x x

-- The whole number nearest to `a / d`, a tie to the even one.
unfoldable pub nearest : ℕ → ℕ → ℕ
nearest a d =
    let k = a / d in
    let r = a % d in
    if ltb (2 * r) d then k else if ltb d (2 * r) then k + 1 else if k % 2 == 0 then k else k + 1

-- The magnitude of a double that is nearest to `num / den`.
unfoldable pub rounded : ℕ → ℕ → ℕ
rounded num den = let q = quantum (num / den) in nearest num (den * q) * q

quantum_from_pos : (f x : ℕ) → 0 < quantum_from f x
unfolding quantum_from
quantum_from_pos zero x = omega arith
quantum_from_pos (suc f) x = ground (arith, quantum_from_pos f (x / 2))

quantum_from_high : (f x : ℕ) → x ≤ f → x < 2 ^ 53 * quantum_from f x
unfolding quantum_from
quantum_from_high zero x h = omega arith
quantum_from_high (suc f) x h = ground (arith, quantum_from_high f (x / 2))

quantum_from_low : (f x : ℕ) → (quantum_from f x ≡ 1) ⊎ (2 ^ 52 * quantum_from f x ≤ x)
unfolding quantum_from
quantum_from_low zero x = inl (omega arith)
quantum_from_low (suc f) x = ground (arith, quantum_from_low f (x / 2))

-- On larger numbers the quantum is the same, or at least twice as large.
quantum_from_mono :
    (f g x y : ℕ)
    → x ≤ f
    → y ≤ g
    → x ≤ y
    → (quantum_from f x ≡ quantum_from g y) ⊎ (2 * quantum_from f x ≤ quantum_from g y)
unfolding quantum_from
quantum_from_mono zero zero x y hf hg h = inl (omega arith)
quantum_from_mono zero (suc g) x y hf hg h = ground (arith, quantum_from_pos g (y / 2))
quantum_from_mono (suc f) zero x y hf hg h = ground arith
quantum_from_mono (suc f) (suc g) x y hf hg h =
    ground (arith, quantum_from_pos g (y / 2), quantum_from_mono f g (x / 2) (y / 2))

-- `nearest` goes down to the quotient or up to the next number, by the remainder.
nearest_cases :
    (a d : ℕ)
    → ((nearest a d ≡ a / d) × (2 * (a % d) ≤ d)) ⊎ ((nearest a d ≡ a / d + 1) × (d ≤ 2 * (a % d)))
unfolding nearest
nearest_cases a d = ground arith

-- It is within a half of the fraction.
nearest_bounds :
    (a d : ℕ) → 0 < d → (2 * (nearest a d * d) ≤ 2 * a + d) × (2 * a ≤ 2 * (nearest a d * d) + d)
nearest_bounds a d h = elim (nearest_cases a d) [
  | inl (e, le) ↦ rw e (omega (arith, div-add-mod a d), omega (arith, div-add-mod a d))
  | inr (e, le) ↦
      rw e (omega (arith, div-add-mod a d, mod-lt a h), omega (arith, div-add-mod a d, mod-lt a h))
]

le-nearest : (a d m : ℕ) → 0 < d → m * d ≤ a → m ≤ nearest a d
le-nearest a d m h le = omega (arith, nearest_cases a d, (le-div_iff_mul-le h).1 le)

pub div_mono : (a b d : ℕ) → 0 < d → a ≤ b → a / d ≤ b / d
div_mono a b d h le = (le-div_iff_mul-le h).1 (omega (arith, div-add-mod' a d))

nearest-mono_lt : (a b d : ℕ) → 0 < d → a < b → nearest a d ≤ nearest b d
nearest-mono_lt a b d h lt = elim (lt_or_le (a / d) (b / d)) [
  | inl up ↦ omega (arith, nearest_cases a d, nearest_cases b d)
  | inr ge ↦
      let same : b / d ≡ a / d = omega (arith, div_mono a b d h (omega arith)) in
      let rest : d * (a / d) + b % d ≡ b = rw same at (div-add-mod b d) in
      omega (arith, div-add-mod a d, nearest_cases a d, nearest_cases b d)
]

nearest_mono : (a b d : ℕ) → 0 < d → a ≤ b → nearest a d ≤ nearest b d
nearest_mono a b d h le = elim (lt_or_le a b) [
  | inl lt ↦ nearest-mono_lt a b d h lt
  | inr ge ↦ let same : a ≡ b = omega arith in rw same (omega arith)
]

-- A whole number of units is met exactly.
nearest-mul : (m d : ℕ) → 0 < d → nearest (m * d) d ≡ m
nearest-mul m d h = omega (arith, nearest_cases (m * d) d, mul-div_cancel m h, mul-mod_left m d)

pub nearest-le : (a d m : ℕ) → 0 < d → a ≤ m * d → nearest a d ≤ m
nearest-le a d m h le = rw (nearest-mul m d h) at (nearest_mono a (m * d) d h le)

pub quantum_pos : (x : ℕ) → 0 < quantum x
unfolding quantum
quantum_pos x = quantum_from_pos x x

-- A fraction below 2 ^ 53 quanta, and at least 2 ^ 52 of them unless the quantum is least.
pub quantum_high : (a d : ℕ) → 0 < d → a ≤ 2 ^ 53 * (d * quantum (a / d))
unfolding quantum
quantum_high a d h =
    let q = quantum_from (a / d) (a / d) in
    let below : a < 2 ^ 53 * q * d =
      (div-lt_iff_lt-mul h).0 (quantum_from_high (a / d) (a / d) (omega arith)) in
    grind arith

quantum_low : (a d : ℕ) → 0 < d → (quantum (a / d) ≡ 1) ⊎ (2 ^ 52 * (d * quantum (a / d)) ≤ a)
unfolding quantum
quantum_low a d h = elim (quantum_from_low (a / d) (a / d)) [
  | inl e ↦ inl e
  | inr le ↦
      let above : 2 ^ 52 * quantum_from (a / d) (a / d) * d ≤ a = (le-div_iff_mul-le h).0 le in
      inr (grind arith)
]

quantum_mono : (x y : ℕ) → x ≤ y → (quantum x ≡ quantum y) ⊎ (2 * quantum x ≤ quantum y)
unfolding quantum
quantum_mono x y h = quantum_from_mono x y x y (omega arith) (omega arith) h

pub mul_pos : (a b : ℕ) → 0 < a → 0 < b → 0 < a * b
mul_pos a b h k = grind arith

-- Rounding keeps the order.
pub rounded_mono : (a b d : ℕ) → 0 < d → a ≤ b → rounded a d ≤ rounded b d
unfolding rounded
rounded_mono a b d h le =
    let q = quantum (a / d) in
    let q' = quantum (b / d) in
    elim (quantum_mono (a / d) (b / d) (div_mono a b d h le)) [
      | inl e ↦
          rw (← e)
            (mul-le-mul_right q (nearest_mono a b (d * q) (mul_pos d q h (quantum_pos (a / d))) le))
      | inr up ↦
          let top : nearest a (d * q) ≤ 2 ^ 53 =
            nearest-le a (d * q) _ (mul_pos d q h (quantum_pos (a / d))) (quantum_high a d h) in
          let bottom : 2 ^ 52 ≤ nearest b (d * q') = elim (quantum_low b d h) [
            | inl one ↦ absurd (omega (arith, quantum_pos (a / d)))
            | inr enough ↦ le-nearest b (d * q') _ (mul_pos d q' h (quantum_pos (b / d))) enough
          ] in
          omega (arith, mul-le-mul_right q top, mul-le-mul_right q' bottom)
    ]

-- A magnitude that is a double: a multiple of its quantum.
abbrev pub IsDouble : ℕ → Type 0
IsDouble v = (m : ℕ) × (v ≡ m * quantum v)

-- A double is its own rounding.
pub rounded_exact : (v d : ℕ) → 0 < d → IsDouble v → rounded (v * d) d ≡ v
unfolding rounded
rounded_exact v d h (m, e) = rw (mul-div_cancel v h) (
    let q = quantum v in
    let units : v * d ≡ m * (d * q) = omega (arith, ap (λ (x : ℕ). x * d) e) in
    rw (units, nearest-mul m (d * q) (mul_pos d q h (quantum_pos v))) (sym e))

pub rounded-le : (a d v : ℕ) → 0 < d → IsDouble v → a ≤ v * d → rounded a d ≤ v
rounded-le a d v h dv le = rw (rounded_exact v d h dv) at (rounded_mono a (v * d) d h le)

pub le-rounded : (a d v : ℕ) → 0 < d → IsDouble v → v * d ≤ a → v ≤ rounded a d
le-rounded a d v h dv le = rw (rounded_exact v d h dv) at (rounded_mono (v * d) a d h le)

-- The error of a rounding is half a quantum.
pub rounded_error :
    (a d : ℕ)
    → 0 < d
    → (2 * (rounded a d * d) ≤ 2 * a + d * quantum (a / d))
      × (2 * a ≤ 2 * (rounded a d * d) + d * quantum (a / d))
unfolding rounded
rounded_error a d h =
    let q = quantum (a / d) in
    let (up, down) = nearest_bounds a (d * q) (mul_pos d q h (quantum_pos (a / d))) in
    (omega arith, omega arith)

-- So it is one part in 2 ^ 53, or half the least step.
pub rounded_close :
    (a d : ℕ)
    → 0 < d
    → (2 ^ 53 * (rounded a d * d) ≤ 2 ^ 53 * a + a + 2 ^ 52 * d)
      × (2 ^ 53 * a ≤ 2 ^ 53 * (rounded a d * d) + a + 2 ^ 52 * d)
rounded_close a d h =
    let (up, down) = rounded_error a d h in
    elim (quantum_low a d h) [
      | inl one ↦
          let same : d * quantum (a / d) ≡ d = omega (arith, ap (λ (x : ℕ). d * x) one) in
          (omega arith, omega arith)
      | inr le ↦ (omega arith, omega arith)
    ]

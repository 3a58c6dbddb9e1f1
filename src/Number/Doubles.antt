-- ===== src/Number/Doubles.antt =====
-- What every operation rounds to is a double.
use native.Mathlib.Nat.{pow-suc}
use mathlib.Core.Path.{subst}
use crispy_enigma.Base.{
  ◌≡◌, refl, sym, ap, ℕ, zero, suc, ◌-◌, ◌∙◌, ◌*◌, ◌/◌, ◌^◌, ◌≤◌, ◌<◌, Bool, true, false,
  Bool-cases, inl, inr, ltb, lt_or_le, ◌==◌, arith,
}
use crispy_enigma.Base.Int.{ℤ, pos, negsuc, magnitude, signed, ◌+ℤ◌, neg_ℤ, int_laws}
use crispy_enigma.Number.{
  Number, nan, infinite, fin, finite, sub, add, add_ℤ, div, div_zero, overflow,
}
use crispy_enigma.Number.Rounding.{
  quantum_from, quantum, nearest, rounded, IsDouble, quantum_pos, quantum_high, nearest-le, mul_pos,
}
use crispy_enigma.Number.Exact.{IsDouble-shift}

quantum_from_power : (f x : ℕ) → (s : ℕ) × (quantum_from f x ≡ 2 ^ s)
unfolding quantum_from
quantum_from_power zero x = (0, refl)
quantum_from_power (suc f) x = elim (Bool-cases (ltb x (2 ^ 53))) [
  | inl e ↦ (0, rw (e, quantum_from) refl)
  | inr e ↦
      let (s, same) = quantum_from_power f (x / 2) in
      (suc s, rw (e, quantum_from) (omega (arith, same, pow-suc 2 s)))
]

-- A rounding is a double.
pub rounded-IsDouble : (a d : ℕ) → 0 < d → IsDouble (rounded a d)
unfolding rounded quantum
rounded-IsDouble a d h =
    let q = quantum (a / d) in
    let (s, same) = quantum_from_power (a / d) (a / d) in
    let top : nearest a (d * q) ≤ 2 ^ 53 =
      nearest-le a (d * q) _ (mul_pos d q h (quantum_pos (a / d))) (quantum_high a d h) in
    elim (lt_or_le (nearest a (d * q)) (2 ^ 53)) [
      | inl lt ↦
          let weight : nearest a (d * q) * 2 ^ s ≡ nearest a (d * q) * q =
            ap (λ (p : ℕ). nearest a (d * q) * p) (sym same) in
          subst IsDouble weight (IsDouble-shift (nearest a (d * q)) s lt)
      | inr le ↦
          let full : nearest a (d * q) ≡ 2 ^ 53 = omega arith in
          let weight : 2 ^ 52 * 2 ^ suc s ≡ nearest a (d * q) * q =
            rw full (omega (arith, same, pow-suc 2 s)) in
          subst IsDouble weight (IsDouble-shift (2 ^ 52) (suc s) (omega arith))
    ]

-- A number whose magnitude, if it has one, is a double.
abbrev pub IsRepresentable : Number → Type 0
IsRepresentable (fin x) = IsDouble (magnitude x)
IsRepresentable x = Unit

magnitude-signed : (s : Bool) (m : ℕ) → magnitude (signed s m) ≡ m
magnitude-signed false m = refl
magnitude-signed true m = ground arith

finite-IsRepresentable : (s : Bool) (m : ℕ) → IsDouble m → IsRepresentable (finite s m)
unfolding finite
finite-IsRepresentable s m h = elim (Bool-cases (ltb m overflow)) [
  | inl e ↦ rw e (subst IsDouble (sym (magnitude-signed s m)) h)
  | inr e ↦ rw e tt
]

div_zero-IsRepresentable : (x : ℤ) → IsRepresentable (div_zero x)
unfolding div_zero
div_zero-IsRepresentable x = elim (Bool-cases (magnitude x == 0)) [
  | inl e ↦ rw (e, div_zero) tt
  | inr e ↦ rw (e, div_zero) tt
]

-- A quotient is a double, if it is finite.
pub div-IsRepresentable : (a b : Number) → IsRepresentable (div a b)
unfolding div
div-IsRepresentable (fin x) (fin y) = elim (Bool-cases (magnitude y == 0)) [
  | inl e ↦ rw (e, div) (div_zero-IsRepresentable x)
  | inr e ↦
      rw (e, div) (finite-IsRepresentable _ _ (rounded-IsDouble _ (magnitude y) (grind arith)))
]
div-IsRepresentable (fin x) nan = tt
div-IsRepresentable (fin x) (infinite t) = (0, refl)
div-IsRepresentable (infinite s) (fin y) = tt
div-IsRepresentable (infinite s) nan = tt
div-IsRepresentable (infinite s) (infinite t) = tt
div-IsRepresentable nan b = tt

-- The difference of two magnitudes, rounded.
pub sub-fin_le :
    (x y : ℕ) → y ≤ x → sub (fin (pos x)) (fin (pos y)) ≡ finite false (rounded (x - y) 1)
unfolding sub add add_ℤ ◌+ℤ◌
sub-fin_le x y h = let same : pos x +ℤ neg_ℤ (pos y) ≡ pos (x - y) = grind int_laws in ap add_ℤ same

pub sub-fin_lt :
    (x y : ℕ) → x < y → sub (fin (pos x)) (fin (pos y)) ≡ finite true (rounded (y - x) 1)
unfolding sub add add_ℤ ◌+ℤ◌
sub-fin_lt x y h =
    let same : pos x +ℤ neg_ℤ (pos y) ≡ negsuc (y - x - 1) = grind int_laws in
    let size : suc (y - x - 1) ≡ y - x = omega arith in
    ap add_ℤ same ∙ ap (λ (n : ℕ). finite true (rounded n 1)) size

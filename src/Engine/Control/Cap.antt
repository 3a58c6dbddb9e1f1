-- ===== src/Engine/Control/Cap.antt =====
-- The cap on a controlled win.
use crispy_enigma.Base.{◌≡◌, refl, ◌∙◌, inl, inr, true, false, some, arith, Bool-cases}
use crispy_enigma.Number.{Number, nan, infinite, fin, le, is_zero, is_nan}
use crispy_enigma.Contracts.{RoundResult}
use crispy_enigma.Engine.Control.{ControlRule, cap_at, apply_win_cap}

le_self : (a : Number) → is_nan a ≡ false → le a a ≡ true
le_self nan h = cc
le_self (infinite true) h = refl
le_self (infinite false) h = refl
le_self (fin x) h = ground arith

module _ (result : RoundResult) (top : Number) (nonzero : is_zero top ≡ false)
    (number : is_nan top ≡ false) where
  cap_at_lem :
      let r = cap_at result (some top) in
      (le r.multiplier top ≡ true) × (r.won ≡ result.won) × (r.outcome ≡ result.outcome)
  unfolding cap_at
  cap_at_lem = elim (Bool-cases (le result.multiplier top)) [
    | inl below ↦ rw (nonzero, number, below) (below, refl, refl)
    | inr above ↦ rw (nonzero, number, above) (le_self top number, refl, refl)
  ]

-- Under a rule with a cap other than 0, no win pays more than the top; that it is a win, and what
-- came out, stay as they were.
pub apply_win_cap_lem :
    (result : RoundResult) (rule : ControlRule) (top : Number)
    → rule.max_win_multiplier ≡ some top
    → is_zero top ≡ false
    → is_nan top ≡ false
    → result.won ≡ true
    → let r = apply_win_cap result (some rule) in
      (le r.multiplier top ≡ true) × (r.won ≡ true) × (r.outcome ≡ result.outcome)
unfolding apply_win_cap
apply_win_cap_lem result rule top e nonzero number won =
    let (below, same, outcome) = cap_at_lem result top nonzero number in
    simp (won, e) (below, same ∙ won, outcome)

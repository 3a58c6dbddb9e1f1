-- ===== src/Deposits/FreeAmount.antt =====
-- The search for a free quote ends.
use crispy_enigma.Base.{
  ◌≡◌, refl, ℕ, zero, suc, ◌≤◌, ◌<◌, List, [], ◌∷◌, map, true, false, Bool-cases, inl, inr, Option,
  some, if◌then◌else◌, length, length-map, All, arith,
}
use crispy_enigma.Number.{Number, add, lt, le, same, max_of}
use crispy_enigma.Number.Order.{lt-le, lt-le-false, same-eq}
use crispy_enigma.Deposits.Coins.{round_crypto, has_amount, next_free, allocate_unique_amount}

-- The next amount that the loop tries.
abbrev pub next_amount : Number → ℕ → Number → Number
next_amount step decimals amount = round_crypto (add amount step) decimals

-- How many of the taken amounts are at or above an amount.
above : List Number → Number → ℕ
above [] a = 0
above (x ∷ xs) a = let rest = above xs a in if le a x then suc rest else rest

-- Above a taken amount there are fewer.
above-le : (a b : Number) (xs : List Number) → lt a b ≡ true → above xs b ≤ above xs a
unfolding above
above-le a b [] h = omega arith
above-le a b (x ∷ xs) h = ground (arith, above-le a b xs h, lt-le a b x h)

above-lt :
    (a b : Number) (xs : List Number)
    → lt a b ≡ true
    → has_amount xs a ≡ true
    → above xs b < above xs a
unfolding above has_amount
above-lt a b [] h k = cc
above-lt a b (x ∷ xs) h k = elim (Bool-cases (same x a)) [
  | inl e ↦
      let here : le a x ≡ true = ground arith in
      let gone : le b x ≡ false = rw (same-eq x a e) (lt-le-false a b h) in
      rw (here, gone) (omega (arith, above-le a b xs h))
  | inr e ↦
      let rest : has_amount xs a ≡ true = ground arith in
      ground (arith, above-lt a b xs h rest, lt-le a b x h)
]

above-length : (xs : List Number) (a : Number) → above xs a ≤ length xs
unfolding above
above-length [] a = omega arith
above-length (x ∷ xs) a = ground (arith, above-length xs a)

-- The loop goes up from every taken amount.
abbrev pub GoesUp : Number → ℕ → List Number → Type 0
GoesUp step decimals taken = All (λ x. lt x (next_amount step decimals x) ≡ true) taken

GoesUp-taken :
    (step : Number) (decimals : ℕ) (taken : List Number) (a : Number)
    → GoesUp step decimals taken
    → has_amount taken a ≡ true
    → lt a (next_amount step decimals a) ≡ true
unfolding has_amount
GoesUp-taken step decimals [] a up h = cc
GoesUp-taken step decimals (x ∷ xs) a (here, up) h = elim (Bool-cases (same x a)) [
  | inl e ↦ rw (same-eq x a e) at here
  | inr e ↦
      let rest : has_amount xs a ≡ true = ground arith in GoesUp-taken step decimals xs a up rest
]

-- The result of a search that ends: an amount that is free.
abbrev pub IsFree : List Number → Option Number → Type 0
IsFree taken found = (amount : Number) × ((found ≡ some amount) × (has_amount taken amount ≡ false))

next_free-IsFree :
    (fuel : ℕ) (taken : List Number) (amount step : Number) (decimals : ℕ)
    → GoesUp step decimals taken
    → above taken amount < fuel
    → IsFree taken (next_free fuel taken amount step decimals)
unfolding next_free
next_free-IsFree zero taken amount step decimals up h = absurd (omega arith)
next_free-IsFree (suc fuel) taken amount step decimals up h =
    elim (Bool-cases (has_amount taken amount)) [
      | inl e ↦
          let next = next_amount step decimals amount in
          let fewer = above-lt amount next taken (GoesUp-taken step decimals taken amount up e) e in
          rw e (next_free-IsFree fuel taken next step decimals up (omega arith))
      | inr e ↦ rw e (amount, (refl, e))
    ]

-- The search for a quote ends, within one try more than there are used amounts, and with an amount
-- that none of the used ones rounds to, if the step leads up from each of their roundings.
pub allocate_unique_amount-IsFree :
    (base : Number) (used : List Number) (step : Number) (decimals : ℕ)
    → GoesUp step decimals (map (λ value. round_crypto value decimals) used)
    → IsFree
        (map (λ value. round_crypto value decimals) used)
        (allocate_unique_amount (suc (length used)) base used step decimals)
unfolding allocate_unique_amount
allocate_unique_amount-IsFree base used step decimals up =
    let taken = map (λ value. round_crypto value decimals) used in
    let first = round_crypto (max_of step base) decimals in
    next_free-IsFree (suc (length used)) taken first step decimals up (
      omega
        (arith, above-length taken first, length-map (λ value. round_crypto value decimals) used))

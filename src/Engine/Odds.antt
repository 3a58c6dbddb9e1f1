-- ===== src/Engine/Odds.antt =====
-- The helpers that the rules of libs/engine/src/rules.ts share.
use crispy_enigma.Base.{
  ℕ, zero, suc, ◌+◌, ◌<◌, ◌≡◌, arith, List, [], ◌∷◌, Bool, true, if◌then◌else◌, length, get_or,
  ◌&&◌, includes,
}
use crispy_enigma.Number.{Number, whole, sub, mul, div, le, lt, round, max_of, min_of}

unfoldable pub round2 : Number → Number
unfolding mul div round whole
round2 value = div (round (mul value (whole 100))) (whole 100)

-- Payout for a fair bet at `win_chance`, minus the house's cut.
unfoldable pub fair_multiplier : Number → Number → Number
unfolding round2 sub
fair_multiplier win_chance house_edge =
    if le win_chance (whole 0) then whole 0 else round2 (div (sub (whole 1) house_edge) win_chance)

abbrev pub clamp : Number → Number → Number → Number
clamp value low high = min_of high (max_of low value)

-- `xs.map((m, i) => (test(m) ? i : -1)).filter((i) => i >= 0)`, with indices from `start`
unfoldable pub indexes_from {ℓ} : {A : Type ℓ} → (A → Bool) → ℕ → List A → List ℕ
indexes_from test start [] = []
indexes_from test start (x ∷ xs) =
    let rest = indexes_from test (start + 1) xs in if test x then start ∷ rest else rest

-- `pool.length > 0 ? pool : fallback`
abbrev pub or_fallback : List ℕ → List ℕ → List ℕ
or_fallback [] fallback = fallback
or_fallback (x ∷ xs) fallback = x ∷ xs

abbrev pub all_of {ℓ} : {A : Type ℓ} → (A → Bool) → List A → Bool
all_of test [] = true
all_of test (x ∷ xs) = test x && all_of test xs

-- What a test says of all elements it says of the one that is read.
pub all_of-get_or {ℓ} :
    {A : Type ℓ} (test : A → Bool) (xs : List A) (i : ℕ) (d : A)
    → all_of test xs ≡ true
    → i < length xs
    → test (get_or xs i d) ≡ true
all_of-get_or test [] i d h lt = elim lt [ ]
all_of-get_or test (x ∷ xs) zero d h lt = ground arith
all_of-get_or test (x ∷ xs) (suc i) d h lt = all_of-get_or test xs i d (ground arith) (omega arith)

pub all_of-includes :
    (test : ℕ → Bool) (xs : List ℕ) (a : ℕ)
    → all_of test xs ≡ true
    → includes xs a ≡ true
    → test a ≡ true
all_of-includes test [] a h k = cc
all_of-includes test (x ∷ xs) a h k = ground (arith, all_of-includes test xs a)

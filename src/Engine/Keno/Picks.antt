-- ===== src/Engine/Keno/Picks.antt =====
-- The picks of a Keno round once repeats are dropped and they are sorted, and the paytable.
use crispy_enigma.Base.{
  ℕ, ◌≤◌, ◌<◌, ◌≡◌, refl, Bool, true, false, not, ◌&&◌, if◌then◌else◌, arith, List, [], ◌∷◌, length,
  keep, count, count-keep, count-sorted, length-sorted, sorted, IsDistinct, Within, ◌==◌, ltb, leb,
  all_below, all_below_sound, length-keep-not,
}
use crispy_enigma.Number.{whole, lt}
use crispy_enigma.Engine.Keno.{unique, keno_payout, keno_min_paying_hits}

count-unique : (a : ℕ) (xs : List ℕ) → count a (unique xs) ≡ (if ltb 0 (count a xs) then 1 else 0)
unfolding unique
count-unique a [] = refl
count-unique a (x ∷ xs) =
    ground (arith, count-keep (λ y. not (y == x)) a (unique xs), count-unique a xs)

length-keep-le : (test : ℕ → Bool) (xs : List ℕ) → length (keep test xs) ≤ length xs
length-keep-le test xs = omega (arith, length-keep-not test xs)

length-unique-le : (xs : List ℕ) → length (unique xs) ≤ length xs
unfolding unique
length-unique-le [] = omega arith
length-unique-le (x ∷ xs) =
    omega (arith, length-keep-le (λ y. not (y == x)) (unique xs), length-unique-le xs)

unique-pos : (xs : List ℕ) → 0 < length xs → 0 < length (unique xs)
unfolding unique
unique-pos [] h = elim h [ ]
unique-pos (x ∷ xs) h = omega arith

-- What the draw needs of the picks: from 1 to 10 different spots of the board.
pub record ArePicks (picks : List ℕ) : Type 0 where
  pub some_pick : 1 ≤ length picks
  pub few : length picks ≤ 10
  pub distinct : IsDistinct picks
  pub on_board : Within 1 51 picks

pub sorted-unique-ArePicks :
    (selected : List ℕ)
    → 1 ≤ length selected
    → length selected ≤ 10
    → Within 1 51 selected
    → ArePicks (sorted (unique selected))
sorted-unique-ArePicks selected h few within = record {
  some_pick = omega (arith, length-sorted (unique selected), unique-pos selected h);
  few = omega (arith, length-sorted (unique selected), length-unique-le selected);
  distinct = λ a. ground (arith, count-sorted a (unique selected), count-unique a selected);
  on_board =
      λ a k. ground (arith, count-sorted a (unique selected), count-unique a selected, within a);
}

-- The least paying hits are hit by a full ticket, and are the first to be paid.
paytable_check : ℕ → Bool
paytable_check n =
    let need = keno_min_paying_hits n in
    ltb 0 need
    && leb need n
    && lt (whole 0) (keno_payout n need)
    && all_below need (λ h. not (lt (whole 0) (keno_payout n h)))

paytable_checks : all_below 11 (λ n. if n == 0 then true else paytable_check n) ≡ true
unfolding all_below paytable_check keno_min_paying_hits keno_payout whole
paytable_checks = refl

module _ (n : ℕ) (pos_n : 1 ≤ n) (few : n ≤ 10) where
  checked : paytable_check n ≡ true
  checked =
      let at_n =
        all_below_sound 11 (λ k. if k == 0 then true else paytable_check k) n paytable_checks
          (omega arith) in
      ground arith

  pub min_paying_hits_bounds : (1 ≤ keno_min_paying_hits n) × (keno_min_paying_hits n ≤ n)
  unfolding paytable_check
  min_paying_hits_bounds = ground (arith, checked)

  pub min_paying_hits_pay : lt (whole 0) (keno_payout n (keno_min_paying_hits n)) ≡ true
  unfolding paytable_check
  min_paying_hits_pay = ground (arith, checked)

  pub fewer_hits_pay_nothing :
      (h : ℕ) → h < keno_min_paying_hits n → lt (whole 0) (keno_payout n h) ≡ false
  unfolding paytable_check
  fewer_hits_pay_nothing h less = ground (
    arith,
    checked,
    all_below_sound (keno_min_paying_hits n) (λ k. not (lt (whole 0) (keno_payout n k))) h,
  )

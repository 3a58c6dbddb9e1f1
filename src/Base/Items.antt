-- ===== src/Base/Items.antt =====
-- Lists of numbers seen as bags: how often each number occurs, and how each list operation of the
-- source changes that. `Array.sort` by value and `Array.filter` are here too.
use Prim.Native.Nat.{ℕ, zero, suc, ◌+◌, ◌<◌, ◌≤◌}
use mathlib.Core.Path.{◌≡◌, refl}
use mathlib.Core.Bool.{Bool, true, false, ◌&&◌, not}
use mathlib.Core.List.{List, [], ◌∷◌, ◌++◌}
use mathlib.Core.Option.{some}
use native.Mathlib.Omega.{arith}
use crispy_enigma.Base.Tests.{==_refl, ◌==◌, if◌then◌else◌, leb, ltb}
use crispy_enigma.Base.Lists.{length, get_elem?, set, take, range_from, includes, keep}

abbrev pub one_if : Bool → ℕ
one_if true = 1
one_if false = 0

abbrev pub count : ℕ → List ℕ → ℕ
count a [] = 0
count a (x ∷ xs) = one_if (x == a) + count a xs

-- The same numbers, each as often.
abbrev pub SameItems : List ℕ → List ℕ → Type 0
SameItems xs ys = (a : ℕ) → count a xs ≡ count a ys

-- No number occurs twice.
abbrev pub IsDistinct : List ℕ → Type 0
IsDistinct xs = (a : ℕ) → count a xs ≤ 1

-- Every number of the list is in the half-open range.
abbrev pub Within : ℕ → ℕ → List ℕ → Type 0
Within low high xs = (a : ℕ) → 0 < count a xs → (low ≤ a) × (a < high)

pub count-append :
    (item : ℕ) (front rear : List ℕ)
    → count item (front ++ rear) ≡ count item front + count item rear
count-append item [] rear = omega arith
count-append item (f ∷ front) rear = ground (arith, count-append item front rear)

pub count-take-le : (a n : ℕ) (xs : List ℕ) → count a (take n xs) ≤ count a xs
count-take-le a zero xs = omega arith
count-take-le a (suc n) [] = omega arith
count-take-le a (suc n) (x ∷ xs) = omega (arith, count-take-le a n xs)

pub count-set :
    (a : ℕ) (xs : List ℕ) (i old new : ℕ)
    → get_elem? xs i ≡ some old
    → count a (set xs i new) + one_if (old == a) ≡ count a xs + one_if (new == a)
count-set a [] i old new e = cc
count-set a (x ∷ xs) zero old new e = ground arith
count-set a (x ∷ xs) (suc i) old new e = omega (arith, count-set a xs i old new e)

pub count-range_from :
    (a start n : ℕ) → count a (range_from start n) ≡ one_if (leb start a && ltb a (start + n))
count-range_from a start zero = ground arith
count-range_from a start (suc n) = ground (arith, count-range_from a (start + 1) n)

pub includes-eq-count : (a : ℕ) (xs : List ℕ) → includes xs a ≡ ltb 0 (count a xs)
includes-eq-count a [] = ground arith
includes-eq-count a (x ∷ xs) = ground (arith, includes-eq-count a xs)

pub count-keep :
    (test : ℕ → Bool) (a : ℕ) (xs : List ℕ)
    → count a (keep test xs) ≡ (if test a then count a xs else 0)
count-keep test a [] = ground arith
count-keep test a (x ∷ xs) = ground (arith, count-keep test a xs)

-- `xs.sort((a, b) => a - b)`
unfoldable pub insert_sorted : ℕ → List ℕ → List ℕ
insert_sorted a [] = a ∷ []
insert_sorted a (x ∷ xs) = if leb a x then a ∷ x ∷ xs else x ∷ insert_sorted a xs

unfoldable pub sorted : List ℕ → List ℕ
unfolding insert_sorted
sorted [] = []
sorted (x ∷ xs) = insert_sorted x (sorted xs)

abbrev pub AtLeast : ℕ → List ℕ → Type 0
AtLeast low [] = Unit
AtLeast low (x ∷ xs) = low ≤ x

abbrev pub IsSorted : List ℕ → Type 0
IsSorted [] = Unit
IsSorted (x ∷ xs) = AtLeast x xs × IsSorted xs

insert_sorted-AtLeast :
    (low a : ℕ) (xs : List ℕ) → low ≤ a → AtLeast low xs → AtLeast low (insert_sorted a xs)
unfolding insert_sorted
insert_sorted-AtLeast low a [] h k = h
insert_sorted-AtLeast low a (x ∷ xs) h k = ground arith

insert_sorted-IsSorted : (a : ℕ) (xs : List ℕ) → IsSorted xs → IsSorted (insert_sorted a xs)
unfolding insert_sorted
insert_sorted-IsSorted a [] h = (tt, tt)
insert_sorted-IsSorted a (x ∷ xs) h =
    ground (arith, insert_sorted-IsSorted a xs h.1, insert_sorted-AtLeast x a xs)

pub sorted-IsSorted : (xs : List ℕ) → IsSorted (sorted xs)
unfolding sorted
sorted-IsSorted [] = tt
sorted-IsSorted (x ∷ xs) = insert_sorted-IsSorted x (sorted xs) (sorted-IsSorted xs)

count-insert_sorted :
    (a x : ℕ) (xs : List ℕ) → count a (insert_sorted x xs) ≡ one_if (x == a) + count a xs
unfolding insert_sorted
count-insert_sorted a x [] = refl
count-insert_sorted a x (y ∷ xs) = ground (arith, count-insert_sorted a x xs)

pub count-sorted : (a : ℕ) (xs : List ℕ) → count a (sorted xs) ≡ count a xs
unfolding sorted
count-sorted a [] = refl
count-sorted a (x ∷ xs) = omega (arith, count-insert_sorted a x (sorted xs), count-sorted a xs)

length-insert_sorted : (x : ℕ) (xs : List ℕ) → length (insert_sorted x xs) ≡ length xs + 1
unfolding insert_sorted
length-insert_sorted x [] = refl
length-insert_sorted x (y ∷ xs) = ground (arith, length-insert_sorted x xs)

pub length-sorted : (xs : List ℕ) → length (sorted xs) ≡ length xs
unfolding sorted
length-sorted [] = refl
length-sorted (x ∷ xs) = omega (arith, length-insert_sorted x (sorted xs), length-sorted xs)

-- What a draw of the first `n`, in order, keeps of a list.
pub sorted-take-IsDistinct : (n : ℕ) (xs : List ℕ) → IsDistinct xs → IsDistinct (sorted (take n xs))
sorted-take-IsDistinct n xs h a =
    omega (arith, h a, count-sorted a (take n xs), count-take-le a n xs)

pub sorted-take-Within :
    (n low high : ℕ) (xs : List ℕ) → Within low high xs → Within low high (sorted (take n xs))
sorted-take-Within n low high xs h a k =
    h a (omega (arith, count-sorted a (take n xs), count-take-le a n xs))

pub range_from-IsDistinct : (start n : ℕ) → IsDistinct (range_from start n)
range_from-IsDistinct start n a = ground (arith, count-range_from a start n)

pub range_from-Within :
    (start n high : ℕ) → start + n ≤ high → Within start high (range_from start n)
range_from-Within start n high e a h = ground (arith, count-range_from a start n)

-- `xs` and then some of `ys`, less what is in `xs`.
abbrev pub and_others : List ℕ → ℕ → List ℕ → List ℕ
and_others xs n ys = xs ++ take n (keep (λ y. not (includes xs y)) ys)

count-and_others :
    (a : ℕ) (xs : List ℕ) (n : ℕ) (ys : List ℕ)
    → count a (and_others xs n ys) ≤ count a xs + (if includes xs a then 0 else count a ys)
count-and_others a xs n ys =
    let others = keep (λ y. not (includes xs y)) ys in
    ground (
      arith,
      count-append a xs (take n others),
      count-take-le a n others,
      count-keep (λ y. not (includes xs y)) a ys,
    )

pub and_others-IsDistinct :
    (xs : List ℕ) (n : ℕ) (ys : List ℕ)
    → IsDistinct xs
    → IsDistinct ys
    → IsDistinct (and_others xs n ys)
and_others-IsDistinct xs n ys h k a =
    ground (arith, count-and_others a xs n ys, includes-eq-count a xs, h a, k a)

pub and_others-Within :
    (low high : ℕ) (xs : List ℕ) (n : ℕ) (ys : List ℕ)
    → Within low high xs
    → Within low high ys
    → Within low high (and_others xs n ys)
and_others-Within low high xs n ys h k a p =
    ground (arith, count-and_others a xs n ys, includes-eq-count a xs, h a, k a)

-- Tests by which a given list is distinct and in range.
abbrev pub no_repeats : List ℕ → Bool
no_repeats [] = true
no_repeats (x ∷ xs) = not (includes xs x) && no_repeats xs

pub no_repeats-IsDistinct : (xs : List ℕ) → no_repeats xs ≡ true → IsDistinct xs
no_repeats-IsDistinct [] h a = omega arith
no_repeats-IsDistinct (x ∷ xs) h a = ground (
  arith,
  includes-eq-count x xs,
  no_repeats-IsDistinct xs,
  λ (k : no_repeats xs ≡ true). no_repeats-IsDistinct xs k a,
)

abbrev pub all_less : ℕ → List ℕ → Bool
all_less high [] = true
all_less high (x ∷ xs) = ltb x high && all_less high xs

pub all_less-Within : (high : ℕ) (xs : List ℕ) → all_less high xs ≡ true → Within 0 high xs
all_less-Within high [] h a k = absurd (omega arith)
all_less-Within high (x ∷ xs) h a k =
    ground
      (arith, λ (t : all_less high xs ≡ true) (p : 0 < count a xs). all_less-Within high xs t a p)

pub take-IsDistinct : (n : ℕ) (xs : List ℕ) → IsDistinct xs → IsDistinct (take n xs)
take-IsDistinct n xs h a = omega (arith, h a, count-take-le a n xs)

pub take-Within : (n low high : ℕ) (xs : List ℕ) → Within low high xs → Within low high (take n xs)
take-Within n low high xs h a k = h a (omega (arith, count-take-le a n xs))

length-keep-includes_nil : (ys : List ℕ) → length (keep (includes []) ys) ≡ 0
length-keep-includes_nil [] = refl
length-keep-includes_nil (y ∷ ys) = length-keep-includes_nil ys

length-keep-includes_cons :
    (x : ℕ) (xs ys : List ℕ)
    → includes xs x ≡ false
    → length (keep (includes (x ∷ xs)) ys) ≡ count x ys + length (keep (includes xs) ys)
length-keep-includes_cons x xs [] h = omega arith
length-keep-includes_cons x xs (y ∷ ys) h = ground (arith, length-keep-includes_cons x xs ys h)

-- Distinct numbers that each occur once in a list are met as often as there are of them.
pub length-keep-includes :
    (xs ys : List ℕ)
    → IsDistinct xs
    → ((a : ℕ) → 0 < count a xs → count a ys ≡ 1)
    → length (keep (includes xs) ys) ≡ length xs
length-keep-includes [] ys d once = length-keep-includes_nil ys
length-keep-includes (x ∷ xs) ys d once =
    let fresh : includes xs x ≡ false = ground (arith, includes-eq-count x xs, d x, ==_refl x) in
    rw (length-keep-includes_cons x xs ys fresh) (
      ground (
        arith,
        once x,
        ==_refl x,
        length-keep-includes xs ys (λ a. omega (arith, d a)) (λ a k. once a (omega (arith, k))),
      ))

pub length-keep-not :
    (test : ℕ → Bool) (xs : List ℕ)
    → length (keep test xs) + length (keep (λ x. not (test x)) xs) ≡ length xs
length-keep-not test [] = refl
length-keep-not test (x ∷ xs) = ground (arith, length-keep-not test xs)

pub keep_congr :
    (test other : ℕ → Bool) (xs : List ℕ)
    → ((a : ℕ) → 0 < count a xs → test a ≡ other a)
    → keep test xs ≡ keep other xs
keep_congr test other [] h = refl
keep_congr test other (x ∷ xs) h =
    let rest = keep_congr test other xs (λ a k. h a (omega (arith, k))) in
    ground (arith, h x, ==_refl x, rest)

-- ===== src/Number/Order.antt =====
-- The order of the numbers.
use crispy_enigma.Base.{◌≡◌, refl, ap, ℕ, Bool, true, false, not, ◌&&◌, ◌||◌, if◌then◌else◌, arith}
use crispy_enigma.Base.Int.{ℤ, pos, negsuc, leb_ℤ}
use crispy_enigma.Number.{Number, nan, infinite, fin, lt, le, same, is_nan, min_of}

-- A number that takes part in a true comparison is no NaN.
pub lt-is_nan : (a b : Number) → lt a b ≡ true → is_nan b ≡ false
lt-is_nan nan nan h = cc
lt-is_nan (infinite s) nan h = cc
lt-is_nan (fin x) nan h = cc
lt-is_nan a (infinite t) h = refl
lt-is_nan a (fin y) h = refl

-- What is not above `a` has nothing below it that is.
pub lt-lt-false : (a b c : Number) → lt b c ≡ true → lt a c ≡ false → lt a b ≡ false
lt-lt-false (fin x) (fin y) (fin z) h k = ground arith
lt-lt-false (fin x) (infinite s) (fin z) h k = ground arith
lt-lt-false (infinite r) (fin y) (fin z) h k = ground arith
lt-lt-false (infinite r) (infinite s) (fin z) h k = ground arith
lt-lt-false (fin x) (fin y) (infinite t) h k = ground arith
lt-lt-false (fin x) (infinite s) (infinite t) h k = ground arith
lt-lt-false (infinite r) (fin y) (infinite t) h k = ground arith
lt-lt-false (infinite r) (infinite s) (infinite t) h k = ground arith
lt-lt-false a b nan h k = let impossible = lt-is_nan b nan h in cc
lt-lt-false nan (fin y) c h k = refl
lt-lt-false nan (infinite s) c h k = refl
lt-lt-false a nan c h k = ground arith

if-lt :
    (z a b : Number) (test : Bool)
    → lt z a ≡ true
    → lt z b ≡ true
    → lt z (if test then b else a) ≡ true
if-lt z a b true h k = k
if-lt z a b false h k = h

-- The minimum of two is above what both are above.
pub lt-min_of : (z a b : Number) → lt z a ≡ true → lt z b ≡ true → lt z (min_of a b) ≡ true
lt-min_of z a b h k = rw (lt-is_nan z a h, lt-is_nan z b k) (if-lt z a b (lt b a) h k)

if-lt-false :
    (z a b : Number) (test : Bool)
    → lt b a ≡ test
    → lt z a ≡ false
    → lt z (if test then b else a) ≡ false
if-lt-false z a b true h k = lt-lt-false z b a h k
if-lt-false z a b false h k = k

pub lt-nan : (z : Number) → lt z nan ≡ false
lt-nan nan = refl
lt-nan (infinite s) = refl
lt-nan (fin x) = refl

if_nan-lt-false :
    (z a b : Number) (test : Bool)
    → lt z a ≡ false
    → lt z (if test then nan else (if lt b a then b else a)) ≡ false
if_nan-lt-false z a b true h = lt-nan z
if_nan-lt-false z a b false h = if-lt-false z a b (lt b a) refl h

-- The minimum of two is not above what the first is not above.
pub min_of-lt-false : (z a b : Number) → lt z a ≡ false → lt z (min_of a b) ≡ false
min_of-lt-false z a b h = if_nan-lt-false z a b (is_nan a || is_nan b) h

pub nan-lt : (b : Number) → lt nan b ≡ false
nan-lt nan = refl
nan-lt (infinite s) = refl
nan-lt (fin y) = refl

pub le-lt-false : (a b : Number) → le b a ≡ true → lt a b ≡ false
le-lt-false (fin x) (fin y) h = ground arith
le-lt-false (fin x) (infinite s) h = ground arith
le-lt-false (infinite r) (fin y) h = ground arith
le-lt-false (infinite r) (infinite s) h = ground arith
le-lt-false nan b h = nan-lt b
le-lt-false a nan h = lt-nan a

-- Of two numbers that are not NaN, one is at most the other or above it.
pub le-not-lt : (a b : Number) → is_nan a ≡ false → is_nan b ≡ false → le a b ≡ not (lt b a)
le-not-lt (fin x) (fin y) h k = ground arith
le-not-lt (fin x) (infinite s) h k = ground arith
le-not-lt (infinite r) (fin y) h k = ground arith
le-not-lt (infinite r) (infinite s) h k = ground arith
le-not-lt nan b h k = cc
le-not-lt (fin x) nan h k = cc
le-not-lt (infinite s) nan h k = cc

pub nan-le : (b : Number) → le nan b ≡ false
nan-le nan = refl
nan-le (infinite s) = refl
nan-le (fin y) = refl

pub le-nan : (a : Number) → le a nan ≡ false
le-nan nan = refl
le-nan (infinite s) = refl
le-nan (fin y) = refl

-- What is below a number that is at most `x` is at most `x`.
pub lt-le : (a b x : Number) → lt a b ≡ true → le b x ≡ true → le a x ≡ true
lt-le (fin a) (fin b) (fin x) h k = ground arith
lt-le (fin a) (fin b) (infinite t) h k = ground arith
lt-le (fin a) (infinite s) (fin x) h k = ground arith
lt-le (fin a) (infinite s) (infinite t) h k = ground arith
lt-le (infinite r) (fin b) (fin x) h k = ground arith
lt-le (infinite r) (fin b) (infinite t) h k = ground arith
lt-le (infinite r) (infinite s) (fin x) h k = ground arith
lt-le (infinite r) (infinite s) (infinite t) h k = ground arith
lt-le nan b x h k = let impossible = nan-lt b in cc
lt-le a nan x h k = let impossible = lt-nan a in cc
lt-le a b nan h k = let impossible = le-nan b in cc

same_fin-eq : (x a : ℤ) → leb_ℤ x a && leb_ℤ a x ≡ true → x ≡ a
same_fin-eq (pos x) (pos a) h = let e : x ≡ a = grind arith in ap (λ (n : ℕ). pos n) e
same_fin-eq (pos x) (negsuc a) h = ground arith
same_fin-eq (negsuc x) (pos a) h = ground arith
same_fin-eq (negsuc x) (negsuc a) h = let e : x ≡ a = grind arith in ap (λ (n : ℕ). negsuc n) e

-- `===` tells numbers apart: here 0 has no sign.
pub same-eq : (x a : Number) → same x a ≡ true → x ≡ a
same-eq (fin x) (fin a) h = ap fin (same_fin-eq x a h)
same-eq (fin x) (infinite s) h = ground arith
same-eq (infinite s) (fin a) h = ground arith
same-eq (infinite false) (infinite false) h = refl
same-eq (infinite true) (infinite true) h = refl
same-eq (infinite false) (infinite true) h = cc
same-eq (infinite true) (infinite false) h = cc
same-eq nan a h = let impossible = rw (nan-le a) at h in cc
same-eq x nan h = let impossible = rw (le-nan x) at h in cc

pub lt-le-false : (x b : Number) → lt x b ≡ true → le b x ≡ false
lt-le-false (fin x) (fin b) h = ground arith
lt-le-false (fin x) (infinite s) h = ground arith
lt-le-false (infinite r) (fin b) h = ground arith
lt-le-false (infinite r) (infinite s) h = ground arith
lt-le-false nan b h = le-nan b
lt-le-false x nan h = nan-le x

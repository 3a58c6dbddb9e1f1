-- ===== src/Number.antt =====
-- The numbers of the source: IEEE 754 doubles, with round to nearest, ties to even. A finite double
-- is a whole number of the least steps, 2 ^ -1074. One zero stands for both, since no code here
-- divides by zero or tells the two apart.
pub mod Rounding
pub mod Exact
pub mod Order
pub mod Doubles
pub mod Signs
pub mod Scaling
use crispy_enigma.Base.{
  ℕ, ◌+◌, ◌-◌, ◌*◌, ◌/◌, ◌^◌, Bool, true, false, ◌&&◌, ◌||◌, not, Option, none, some, ltb, ◌==◌,
  if◌then◌else◌,
}
use crispy_enigma.Base.Int.{
  ℤ, pos, negsuc, ◌+ℤ◌, neg_ℤ, is_negative, magnitude, signed, ltb_ℤ, leb_ℤ, sub_ℕ,
}
use Rounding.{rounded, quantum, quantum_from, nearest}

pub data Number : Type 0 where
  nan : Number
  infinite : Bool → Number
  fin : ℤ → Number

-- One, counted in least steps.
unfoldable pub unit : ℕ
unit = 2 ^ 1074

-- The first magnitude that overflows, 2 ^ 1024.
unfoldable pub overflow : ℕ
overflow = 2 ^ 2098

-- A rounded magnitude with its sign; `infinite true` is -Infinity.
unfoldable pub finite : Bool → ℕ → Number
finite s m = if ltb m overflow then fin (signed s m) else infinite s

-- The double nearest to the fraction `c / k`: a numeric literal, or `Number` of a decimal text.
unfoldable pub decimal : ℕ → ℕ → Number
unfolding finite rounded quantum quantum_from nearest unit overflow
decimal c k = finite false (rounded (c * unit) k)

unfoldable pub decimal_ℤ : ℤ → ℕ → Number
unfolding finite rounded quantum quantum_from nearest unit overflow
decimal_ℤ c k = finite (is_negative c) (rounded (magnitude c * unit) k)

unfoldable pub whole : ℕ → Number
unfolding decimal
whole n = decimal n 1

abbrev pub is_nan : Number → Bool
is_nan nan = true
is_nan (infinite _) = false
is_nan (fin _) = false

-- `Number.isFinite`
abbrev pub is_finite : Number → Bool
is_finite nan = false
is_finite (infinite _) = false
is_finite (fin _) = true

abbrev pub is_zero : Number → Bool
is_zero nan = false
is_zero (infinite _) = false
is_zero (fin x) = magnitude x == 0

abbrev pub has_minus : Number → Bool
has_minus nan = false
has_minus (infinite s) = s
has_minus (fin x) = is_negative x

abbrev pub differ : Bool → Bool → Bool
differ a b = if a then not b else b

abbrev pub neg : Number → Number
neg nan = nan
neg (infinite s) = infinite (not s)
neg (fin x) = fin (neg_ℤ x)

-- `Math.abs`
abbrev pub abs : Number → Number
abs nan = nan
abs (infinite _) = infinite false
abs (fin x) = fin (pos (magnitude x))

add_infinite : Bool → Number → Number
add_infinite s nan = nan
add_infinite s (infinite t) = if differ s t then nan else infinite s
add_infinite s (fin _) = infinite s

add_ℤ : ℤ → Number
unfolding finite rounded quantum quantum_from nearest overflow
add_ℤ z = finite (is_negative z) (rounded (magnitude z) 1)

unfoldable pub add : Number → Number → Number
unfolding add_infinite add_ℤ ◌+ℤ◌
add nan b = nan
add (infinite s) b = add_infinite s b
add (fin x) nan = nan
add (fin x) (infinite t) = infinite t
add (fin x) (fin y) = add_ℤ (x +ℤ y)

unfoldable pub sub : Number → Number → Number
unfolding add
sub a b = add a (neg b)

mul_infinite : Number → Number → Number
mul_infinite a b =
    if is_nan a || is_nan b || is_zero a || is_zero b
    then nan
    else infinite (differ (has_minus a) (has_minus b))

unfoldable pub mul : Number → Number → Number
unfolding mul_infinite finite rounded quantum quantum_from nearest unit overflow
mul (fin x) (fin y) =
    finite (differ (is_negative x) (is_negative y)) (rounded (magnitude x * magnitude y) unit)
mul a b = mul_infinite a b

div_zero : ℤ → Number
div_zero x = if magnitude x == 0 then nan else infinite (is_negative x)

div_infinite : Number → Number → Number
div_infinite nan b = nan
div_infinite (infinite s) (fin y) = infinite (differ s (is_negative y))
div_infinite (infinite s) b = nan
div_infinite (fin x) nan = nan
div_infinite (fin x) b = fin (pos 0)

unfoldable pub div : Number → Number → Number
unfolding div_zero div_infinite finite rounded quantum quantum_from nearest unit overflow
div (fin x) (fin y) =
    if magnitude y == 0
    then div_zero x
    else finite (differ (is_negative x) (is_negative y))
        (rounded (magnitude x * unit) (magnitude y))
div a b = div_infinite a b

-- `a < b`; false with NaN on a side
abbrev pub lt : Number → Number → Bool
lt (fin x) (fin y) = ltb_ℤ x y
lt (fin x) (infinite t) = not t
lt (infinite s) (fin y) = s
lt (infinite s) (infinite t) = s && not t
lt a b = false

-- `a <= b`
abbrev pub le : Number → Number → Bool
le (fin x) (fin y) = leb_ℤ x y
le (fin x) (infinite t) = not t
le (infinite s) (fin y) = s
le (infinite s) (infinite t) = s || not t
le a b = false

-- `a === b`
abbrev pub same : Number → Number → Bool
same a b = le a b && le b a

-- `Math.max` and `Math.min` of two
abbrev pub max_of : Number → Number → Number
max_of a b = if is_nan a || is_nan b then nan else if lt a b then b else a

abbrev pub min_of : Number → Number → Number
min_of a b = if is_nan a || is_nan b then nan else if lt b a then b else a

-- The whole number at or below `x`, and `Math.floor` and `Math.round` by it.
floor_ℤ : ℤ → ℤ
floor_ℤ (pos a) = pos (a / unit)
floor_ℤ (negsuc a) = negsuc (a / unit)

unfoldable pub floor : Number → Number
unfolding floor_ℤ unit
floor nan = nan
floor (infinite s) = infinite s
floor (fin x) = let z = floor_ℤ x in fin (signed (is_negative z) (magnitude z * unit))

-- The nearest whole number, a tie upwards.
unfoldable pub round_ℤ : ℤ → ℤ
round_ℤ (pos a) = pos ((2 * a + unit) / (2 * unit))
round_ℤ (negsuc a) = signed true ((2 * a + 1 + unit) / (2 * unit))

unfoldable pub round : Number → Number
unfolding round_ℤ unit
round nan = nan
round (infinite s) = infinite s
round (fin x) = let z = round_ℤ x in fin (signed (is_negative z) (magnitude z * unit))

-- `x.toFixed(d)` as a count of units of 10 ^ -d, with `scale` for 10 ^ d: the nearest, a tie away
-- from zero. `none` is the text of NaN or of an infinity.
unfoldable pub to_fixed : ℕ → Number → Option ℤ
unfolding unit
to_fixed scale (fin x) =
    some (signed (is_negative x) ((2 * scale * magnitude x + unit) / (2 * unit)))
to_fixed scale x = none

-- A number used as an index or a count, once it is a whole number of 0 or more.
unfoldable pub to_ℕ : Number → ℕ
unfolding unit
to_ℕ (fin (pos a)) = a / unit
to_ℕ x = 0

-- `Number.isInteger`
unfoldable pub is_integer : Number → Bool
unfolding floor
is_integer x = is_finite x && same (floor x) x

-- ===== src/Engine/Validate.antt =====
-- `validateSelection` of libs/engine/src/resolver.ts, over the JSON values that a request holds.
-- What `Number` makes of a text or an object is a parameter.
use Prim.Native.String.{String}
use package.text.Mathlib.Text.{◌==◌ as str_eq}
use crispy_enigma.Base.{
  ℕ, List, [], ◌∷◌, map, Bool, false, not, ◌||◌, ◌&&◌, if◌then◌else◌, Option, none, some, length,
  ltb, sorted,
}
use crispy_enigma.Base.Int.{pos}
use crispy_enigma.Number.{
  Number, nan, fin, whole, decimal, lt, same, is_finite, is_integer, is_nan, to_ℕ,
}
use crispy_enigma.Contracts.{
  GameSlug, Selection, Direction, over, under, Side, heads, tails, Risk, low, medium, high,
  Difficulty, easy, hard, expert,
}

mutual
  pub data Json : Type 0 where
    undefined : Json
    null : Json
    bool : Bool → Json
    num : Number → Json
    text : String → Json
    arr : Items → Json
    obj : Fields → Json

  pub data Items : Type 0 where
    nil : Items
    cons : Json → Items → Items

  pub data Fields : Type 0 where
    end : Fields
    field : String → Json → Fields → Fields

find_field : Fields → String → Json
find_field end key = undefined
find_field (field k v rest) key = if str_eq k key then v else find_field rest key

-- `value?.key`, for a key that no array or text has
unfoldable pub member : Json → String → Json
unfolding find_field
member (obj fields) key = find_field fields key
member value key = undefined

-- `Number(text)` and `Number(object)`
pub record Conversions : Type 0 where
  pub of_text : String → Number
  pub of_object : Json → Number

pub data Validated : Type 0 where
  valid : Selection → Validated
  invalid : String → Validated

module _ (conv : Conversions) where
  unfoldable pub to_number : Json → Number
  to_number undefined = nan
  to_number null = fin (pos 0)
  to_number (bool b) = if b then whole 1 else fin (pos 0)
  to_number (num x) = x
  to_number (text s) = conv.of_text s
  to_number (arr xs) = conv.of_object (arr xs)
  to_number (obj fs) = conv.of_object (obj fs)

  numbers : Items → List Number
  unfolding to_number
  numbers nil = []
  numbers (cons x xs) = to_number x ∷ numbers xs

  -- `Array.isArray(v) ? v.map(Number) : []`
  pick_numbers : Json → List Number
  unfolding numbers
  pick_numbers (arr xs) = numbers xs
  pick_numbers other = []

-- `===` with a text
is_text : Json → String → Bool
is_text (text s) t = str_eq s t
is_text other t = false

direction_of : Json → Option Direction
unfolding is_text
direction_of v =
    if is_text v "over" then some over else if is_text v "under" then some under else none

side_of : Json → Option Side
unfolding is_text
side_of v = if is_text v "heads" then some heads else if is_text v "tails" then some tails else none

risk_of : Json → Option Risk
unfolding is_text
risk_of v =
    if is_text v "low"
    then some low
    else if is_text v "medium"
    then some medium
    else if is_text v "high"
    then some high
    else none

difficulty_of : Json → Option Difficulty
unfolding is_text
difficulty_of v =
    if is_text v "easy"
    then some easy
    else if is_text v "medium"
    then some Difficulty.medium
    else if is_text v "hard"
    then some hard
    else if is_text v "expert"
    then some expert
    else none

-- Equality of the members of a `Set`
same_value : Number → Number → Bool
same_value a b = same a b || is_nan a && is_nan b

has_number : List Number → Number → Bool
unfolding same_value
has_number [] a = false
has_number (x ∷ xs) a = same_value x a || has_number xs a

-- `new Set(xs).size !== xs.length`
has_repeats : List Number → Bool
unfolding has_number
has_repeats [] = false
has_repeats (x ∷ xs) = has_number xs x || has_repeats xs

-- `!Number.isInteger(n) || n < least || n > most`
unfoldable pub outside : ℕ → ℕ → Number → Bool
unfolding is_integer whole
outside least most n = not (is_integer n) || lt n (whole least) || lt (whole most) n

-- `xs.some((n) => outside(n))`
some_outside : List Number → Bool
unfolding outside
some_outside [] = false
some_outside (x ∷ xs) = outside 1 50 x || some_outside xs

validate_dice : Number → Json → Validated
unfolding direction_of whole
validate_dice target direction =
    if not (is_finite target) || lt target (whole 2) || lt (whole 98) target
    then invalid "Target must be between 2 and 98"
    else elim (direction_of direction) [
      | none ↦ invalid "Direction must be over or under"
      | some d ↦ valid (Selection.dice (record { target = target; direction = d }))
    ]

validate_limbo : Number → Validated
unfolding decimal
validate_limbo target =
    if not (is_finite target) || lt target (decimal 101 100)
    then invalid "Target must be at least 1.01x"
    else valid (Selection.limbo target)

validate_mines : Number → Validated
unfolding outside to_ℕ
validate_mines mine_count =
    if outside 1 24 mine_count
    then invalid "Mines must be between 1 and 24"
    else valid (Selection.mines (to_ℕ mine_count))

validate_plinko : Json → Number → Validated
unfolding risk_of whole to_ℕ
validate_plinko risk rows = elim (risk_of risk) [
  | none ↦ invalid "Pick a risk level"
  | some r ↦
      if same rows (whole 8) || same rows (whole 12) || same rows (whole 16)
      then valid (Selection.plinko (record { risk = r; rows = to_ℕ rows }))
      else invalid "Rows must be 8, 12, or 16"
]

validate_keno : List Number → Validated
unfolding has_repeats some_outside to_ℕ sorted
validate_keno picks =
    if ltb (length picks) 1 || ltb 10 (length picks)
    then invalid "Pick between 1 and 10 numbers"
    else if has_repeats picks
    then invalid "Numbers must be unique"
    else if some_outside picks
    then invalid "Numbers must be between 1 and 50"
    else valid (Selection.keno (sorted (map to_ℕ picks)))

module _ (conv : Conversions) where
  unfoldable pub validate_selection : GameSlug → Json → Validated
  unfolding member to_number pick_numbers validate_dice side_of validate_limbo risk_of
      validate_mines validate_plinko difficulty_of validate_keno
  validate_selection GameSlug.dice value =
      validate_dice (to_number conv (member value "target")) (member value "direction")
  validate_selection GameSlug.coin_flip value = elim (side_of (member value "side")) [
    | none ↦ invalid "Pick heads or tails"
    | some side ↦ valid (Selection.coin_flip side)
  ]
  validate_selection GameSlug.limbo value = validate_limbo (to_number conv (member value "target"))
  validate_selection GameSlug.wheel value = elim (risk_of (member value "risk")) [
    | none ↦ invalid "Pick a risk level"
    | some risk ↦ valid (Selection.wheel risk)
  ]
  validate_selection GameSlug.mines value =
      validate_mines (to_number conv (member value "mineCount"))
  validate_selection GameSlug.plinko value =
      validate_plinko (member value "risk") (to_number conv (member value "rows"))
  validate_selection GameSlug.towers value = elim (difficulty_of (member value "difficulty")) [
    | none ↦ invalid "Pick a difficulty"
    | some d ↦ valid (Selection.towers d)
  ]
  validate_selection GameSlug.keno value = validate_keno (pick_numbers conv (member value "picks"))

-- ===== src/Engine/Rng.antt =====
-- libs/engine/src/rng.ts: numbers drawn from a seed triple. The HMAC of node:crypto is a parameter,
-- the list of the hex digits of its digest.
pub mod Bounds
pub mod Shuffle
pub mod Slots
use Prim.Native.String.{String, ◌++◌ as append}
use crispy_enigma.Base.{
  ℕ, zero, suc, ◌+◌, ◌-◌, ◌*◌, ◌/◌, ◌%◌, ◌^◌, List, [], ◌∷◌, Option, none, some, ltb, if◌then◌else◌,
  length, take, get_or,
}
use crispy_enigma.Number.{Number, whole, div, mul, floor, to_ℕ}
use crispy_enigma.Contracts.{SeedContext}

digit_texts : List String
digit_texts = "0" ∷ "1" ∷ "2" ∷ "3" ∷ "4" ∷ "5" ∷ "6" ∷ "7" ∷ "8" ∷ "9" ∷ []

decimal_text_from : ℕ → ℕ → String
unfolding digit_texts
decimal_text_from zero n = "0"
decimal_text_from (suc f) n =
    let rest = decimal_text_from f (n / 10) in
    if ltb n 10 then get_or digit_texts n "0" else append rest (get_or digit_texts (n % 10) "0")

-- `${n}` of a whole number
pub decimal_text : ℕ → String
unfolding decimal_text_from
decimal_text n = decimal_text_from (suc n) n

-- `Number.parseInt(digits, 16)` of hex digits
unfoldable pub parse_hex : ℕ → List ℕ → ℕ
parse_hex acc [] = acc
parse_hex acc (d ∷ ds) = parse_hex (acc * 16 + d) ds

-- An array as its slots, where `none` is one that holds `undefined`. Reading past the end gives
-- `undefined`, and writing there makes the array longer.
abbrev pub get_slot {ℓ} : {A : Type ℓ} → List (Option A) → ℕ → Option A
get_slot slots i = get_or slots i none

unfoldable pub put_slot {ℓ} : {A : Type ℓ} → List (Option A) → ℕ → Option A → List (Option A)
put_slot [] zero value = value ∷ []
put_slot [] (suc i) value = none ∷ put_slot [] i value
put_slot (slot ∷ slots) zero value = value ∷ slots
put_slot (slot ∷ slots) (suc i) value = slot ∷ put_slot slots i value

-- `[result[i], result[j]] = [result[j], result[i]]`
unfoldable pub exchange {ℓ} : {A : Type ℓ} → List (Option A) → ℕ → ℕ → List (Option A)
unfolding put_slot
exchange slots i j = put_slot (put_slot slots i (get_slot slots j)) j (get_slot slots i)

abbrev pub filled {ℓ} : {A : Type ℓ} → List A → List (Option A)
filled [] = []
filled (x ∷ xs) = some x ∷ filled xs

abbrev pub defined {ℓ} : {A : Type ℓ} → List (Option A) → List A
defined [] = []
defined (none ∷ slots) = defined slots
defined (some x ∷ slots) = x ∷ defined slots

-- `createHmac("sha256", key).update(message).digest("hex")`
abbrev pub Hmac : Type 0
Hmac = String → String → List ℕ

module _ (hmac : Hmac) where
  -- The first 52 bits of the digest for this cursor.
  unfoldable pub draw_bits : SeedContext → ℕ → ℕ
  unfolding parse_hex decimal_text
  draw_bits s cursor =
      let text =
        append s.client_seed
          (append ":" (append (decimal_text s.nonce) (append ":" (decimal_text cursor)))) in
      parse_hex 0 (take 13 (hmac s.server_seed text))

  unfoldable pub seeded_float : SeedContext → ℕ → Number
  unfolding draw_bits div whole
  seeded_float s cursor = div (whole (draw_bits s cursor)) (whole (2 ^ 52))

  -- `Math.floor(seededFloat(...) * n)`
  unfoldable pub draw_below : SeedContext → ℕ → ℕ → ℕ
  unfolding seeded_float mul whole floor to_ℕ
  draw_below s cursor n = to_ℕ (floor (mul (seeded_float s cursor) (whole n)))

  unfoldable pub seeded_int : SeedContext → ℕ → ℕ → ℕ → ℕ
  unfolding draw_below
  seeded_int s low high cursor = low + draw_below s cursor (high + 1 - low)

  -- The loop of `seededShuffle`, for `i` from the first argument down to 1.
  unfoldable pub shuffle_from {ℓ} :
      {A : Type ℓ} → SeedContext → ℕ → ℕ → List (Option A) → List (Option A)
  unfolding draw_below exchange
  shuffle_from s offset zero slots = slots
  shuffle_from s offset (suc i) slots =
      shuffle_from s offset i (exchange slots (suc i) (draw_below s (offset + suc i) (suc i + 1)))

  -- The items in the slots of the result, none of which is `undefined` for a digest of hex digits.
  unfoldable pub seeded_shuffle {ℓ} : {A : Type ℓ} → List A → SeedContext → ℕ → List A
  unfolding shuffle_from
  seeded_shuffle items s offset = defined (shuffle_from s offset (length items - 1) (filled items))

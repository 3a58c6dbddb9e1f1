-- ===== src/Engine/Control/Precedence.antt =====
-- The bias mode of `decideForcedResult` at its two ends.
use crispy_enigma.Base.{◌≡◌, refl, true, false, ◌||◌, some, arith, ℕ, ◌^◌, ◌<◌, ap}
use crispy_enigma.Base.Int.{pos}
use crispy_enigma.Number.{fin, whole, lt}
use crispy_enigma.Contracts.{SeedContext}
use crispy_enigma.Engine.Rng.{Hmac, draw_bits}
use crispy_enigma.Engine.Rng.Bounds.{Digests, float_of, seeded_float_lem, draw_bits-lt}
use crispy_enigma.Engine.Control.{decide_bias}

float_not_negative : (n : ℕ) → lt (fin (pos n)) (whole 0) ≡ false
unfolding whole
float_not_negative n = ground arith

float_below_one : (n : ℕ) → n < 2 ^ 52 → lt (fin (pos (float_of n))) (whole 1) ≡ true
unfolding whole
float_below_one n h = ground (arith, h)

zero-lt-zero : lt (whole 0) (whole 0) || lt (whole 1) (whole 0) ≡ false
unfolding whole
zero-lt-zero = refl

one-lt-one : lt (whole 1) (whole 0) || lt (whole 1) (whole 1) ≡ false
unfolding whole
one-lt-one = refl

module _ (hmac : Hmac) (hex : Digests hmac) where
  -- A bias of rate 0 forces a loss on every round, one of rate 1 a win.
  pub decide_bias_ends :
      (seeds : SeedContext)
      → (decide_bias hmac (some (whole 0)) seeds ≡ some false)
        × (decide_bias hmac (some (whole 1)) seeds ≡ some true)
  unfolding decide_bias
  decide_bias_ends seeds =
      rw (zero-lt-zero, one-lt-one, seeded_float_lem hmac seeds 9_999 hex)
        (
          ap some (float_not_negative (float_of (draw_bits hmac seeds 9_999))),
          ap some
              (float_below_one (draw_bits hmac seeds 9_999) (draw_bits-lt hmac seeds 9_999 hex)),
        )

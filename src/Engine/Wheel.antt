-- ===== src/Engine/Wheel.antt =====
-- `WHEEL_SEGMENTS` and `resolveWheel` of libs/engine/src/rules.ts.
pub mod Forced
use crispy_enigma.Base.{
  ℕ, ◌+◌, ◌-◌, List, [], ◌∷◌, map, Bool, true, false, if◌then◌else◌, Option, none, some, length,
  get_or,
}
use crispy_enigma.Number.{Number, whole, decimal, le, lt}
use crispy_enigma.Contracts.{
  Risk, low, medium, high, ForcedResult, Outcome, RoundResult, SeedContext,
}
use crispy_enigma.Engine.Rng.{Hmac, seeded_int}
use crispy_enigma.Engine.Odds.{indexes_from, or_fallback}

abbrev tenths : ℕ → Number
tenths n = decimal n 10

unfoldable pub wheel_segments : Risk → List Number
unfolding decimal
wheel_segments low = map tenths (0 ∷ 12 ∷ 15 ∷ 12 ∷ 0 ∷ 15 ∷ 12 ∷ 20 ∷ 0 ∷ 12 ∷ 15 ∷ 12 ∷ [])
wheel_segments medium = map tenths (0 ∷ 15 ∷ 20 ∷ 0 ∷ 30 ∷ 15 ∷ 0 ∷ 20 ∷ 50 ∷ 0 ∷ 15 ∷ 30 ∷ [])
wheel_segments high = map tenths (0 ∷ 0 ∷ 0 ∷ 0 ∷ 50 ∷ 0 ∷ 0 ∷ 100 ∷ 0 ∷ 0 ∷ 0 ∷ 500 ∷ [])

-- `m > 1` and `m <= 1`
unfoldable pub pays : Number → Bool
unfolding whole
pays m = lt (whole 1) m

unfoldable pub pays_not : Number → Bool
unfolding whole
pays_not m = le m (whole 1)

unfoldable pub wheel_pool : Risk → Bool → List ℕ
unfolding indexes_from wheel_segments pays pays_not
wheel_pool risk true =
    or_fallback (indexes_from pays 0 (wheel_segments risk))
      (indexes_from pays_not 0 (wheel_segments risk))
wheel_pool risk false =
    or_fallback (indexes_from pays_not 0 (wheel_segments risk))
      (indexes_from pays 0 (wheel_segments risk))

module _ (hmac : Hmac) where
  unfoldable pub wheel_segment : Risk → SeedContext → ForcedResult → ℕ
  unfolding wheel_pool wheel_segments seeded_int
  wheel_segment risk seeds none = seeded_int hmac seeds 0 (length (wheel_segments risk) - 1) 0
  wheel_segment risk seeds (some f) =
      let chosen = wheel_pool risk f in
      get_or chosen (seeded_int hmac seeds 0 (length chosen - 1) 0) 0

  unfoldable pub resolve_wheel : Risk → SeedContext → ForcedResult → RoundResult
  unfolding wheel_segment wheel_segments whole
  resolve_wheel risk seeds forced =
      let segment = wheel_segment risk seeds forced in
      let multiplier = get_or (wheel_segments risk) segment (whole 0) in
      record {
        won = lt (whole 0) multiplier;
        multiplier = multiplier;
        outcome = Outcome.wheel segment multiplier;
      }

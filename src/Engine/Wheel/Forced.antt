-- ===== src/Engine/Wheel/Forced.antt =====
-- The segment of the wheel, and a forced spin.
use crispy_enigma.Base.{
  ℕ, ◌-◌, ◌≤◌, ◌<◌, ◌≡◌, refl, Bool, true, false, none, some, arith, length, get_or, ltb, ltb→lt,
  not,
}
use crispy_enigma.Number.{whole, lt}
use crispy_enigma.Contracts.{Risk, low, medium, high, ForcedResult, SeedContext}
use crispy_enigma.Engine.Rng.{Hmac, seeded_int}
use crispy_enigma.Engine.Rng.Bounds.{Digests, seeded_index-lt}
use crispy_enigma.Engine.Odds.{all_of, all_of-get_or}
use crispy_enigma.Engine.Wheel.{wheel_segments, wheel_pool, wheel_segment, resolve_wheel}

-- Whether the segment at an index is above 0.
abbrev agrees : Risk → Bool → ℕ → Bool
agrees risk true i = lt (whole 0) (get_or (wheel_segments risk) i (whole 0))
agrees risk false i = not (lt (whole 0) (get_or (wheel_segments risk) i (whole 0)))

pool_agrees : (risk : Risk) (f : Bool) → all_of (agrees risk f) (wheel_pool risk f) ≡ true
unfolding wheel_pool wheel_segments whole
pool_agrees low true = refl
pool_agrees low false = refl
pool_agrees medium true = refl
pool_agrees medium false = refl
pool_agrees high true = refl
pool_agrees high false = refl

pool_size :
    (risk : Risk) (f : Bool) → (1 ≤ length (wheel_pool risk f)) × (length (wheel_pool risk f) ≤ 12)
unfolding wheel_pool
pool_size low true = omega arith
pool_size low false = omega arith
pool_size medium true = omega arith
pool_size medium false = omega arith
pool_size high true = omega arith
pool_size high false = omega arith

agrees_lem :
    (risk : Risk) (f : Bool) (i : ℕ)
    → agrees risk f i ≡ true
    → lt (whole 0) (get_or (wheel_segments risk) i (whole 0)) ≡ f
agrees_lem risk true i h = h
agrees_lem risk false i h = ground arith

wheel_size : (risk : Risk) → length (wheel_segments risk) ≡ 12
unfolding wheel_segments
wheel_size low = refl
wheel_size medium = refl
wheel_size high = refl

pool_below : (risk : Risk) (f : Bool) → all_of (λ i. ltb i 12) (wheel_pool risk f) ≡ true
unfolding wheel_pool
pool_below low true = refl
pool_below low false = refl
pool_below medium true = refl
pool_below medium false = refl
pool_below high true = refl
pool_below high false = refl

module _ (hmac : Hmac) (hex : Digests hmac) where
  pool_index-lt :
      (risk : Risk) (seeds : SeedContext) (f : Bool)
      → let pool = wheel_pool risk f in seeded_int hmac seeds 0 (length pool - 1) 0 < length pool
  pool_index-lt risk seeds f =
      let (some_index, few) = pool_size risk f in
      seeded_index-lt hmac seeds (length (wheel_pool risk f)) 0 hex some_index (omega arith)

  segment_forced :
      (risk : Risk) (seeds : SeedContext) (f : Bool)
      → agrees risk f (wheel_segment hmac risk seeds (some f)) ≡ true
  unfolding wheel_segment
  segment_forced risk seeds f =
      all_of-get_or (agrees risk f) (wheel_pool risk f) _ 0 (pool_agrees risk f)
        (pool_index-lt risk seeds f)

  -- A forced spin is won exactly as it is forced.
  pub resolve_wheel_forced :
      (risk : Risk) (seeds : SeedContext) (f : Bool)
      → (resolve_wheel hmac risk seeds (some f)).won ≡ f
  unfolding resolve_wheel
  resolve_wheel_forced risk seeds f =
      agrees_lem risk f (wheel_segment hmac risk seeds (some f)) (segment_forced risk seeds f)

  -- The wheel stops on one of its twelve segments.
  pub wheel_segment-lt :
      (risk : Risk) (seeds : SeedContext) (forced : ForcedResult)
      → wheel_segment hmac risk seeds forced < length (wheel_segments risk)
  unfolding wheel_segment
  wheel_segment-lt risk seeds none =
      seeded_index-lt hmac seeds (length (wheel_segments risk)) 0 hex
        (omega (arith, wheel_size risk)) (omega (arith, wheel_size risk))
  wheel_segment-lt risk seeds (some f) = rw (wheel_size risk) (
      ltb→lt _ 12 (
        all_of-get_or (λ i. ltb i 12) (wheel_pool risk f) _ 0 (pool_below risk f)
          (pool_index-lt risk seeds f)))

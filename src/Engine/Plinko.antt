-- ===== src/Engine/Plinko.antt =====
-- `PLINKO_BUCKETS`, `plinkoPathForBucket` and `resolvePlinko` of libs/engine/src/rules.ts.
pub mod Path
use crispy_enigma.Base.{
  ℕ, zero, suc, ◌+◌, ◌-◌, List, [], ◌∷◌, map, Bool, true, false, if◌then◌else◌, Option, none, some,
  length, get_or, take, range_from, includes, one_if, ◌==◌, not,
}
use crispy_enigma.Number.{Number, whole, decimal, le, lt, min_of}
use crispy_enigma.Contracts.{
  Risk, low, medium, high, PlinkoSelection, ForcedResult, Outcome, RoundResult, SeedContext,
}
use crispy_enigma.Engine.Rng.{Hmac, seeded_int, seeded_float, seeded_shuffle}
use crispy_enigma.Engine.Odds.{indexes_from, or_fallback}

-- `PLINKO_ROWS`
abbrev pub plinko_rows : List ℕ
plinko_rows = 8 ∷ 12 ∷ 16 ∷ []

-- The tables, in tenths. A number of rows with no table has no buckets.
unfoldable pub bucket_tenths : Risk → ℕ → List ℕ
bucket_tenths low rows =
    if rows == 8
    then 56 ∷ 21 ∷ 11 ∷ 10 ∷ 5 ∷ 10 ∷ 11 ∷ 21 ∷ 56 ∷ []
    else if rows == 12
    then 100 ∷ 30 ∷ 16 ∷ 14 ∷ 11 ∷ 10 ∷ 5 ∷ 10 ∷ 11 ∷ 14 ∷ 16 ∷ 30 ∷ 100 ∷ []
    else if rows == 16
    then 160 ∷ 90 ∷ 20 ∷ 14 ∷ 14 ∷ 12 ∷ 11 ∷ 10 ∷ 5 ∷ 10 ∷ 11 ∷ 12 ∷ 14 ∷ 14 ∷ 20 ∷ 90 ∷ 160 ∷ []
    else []
bucket_tenths medium rows =
    if rows == 8
    then 130 ∷ 30 ∷ 13 ∷ 7 ∷ 4 ∷ 7 ∷ 13 ∷ 30 ∷ 130 ∷ []
    else if rows == 12
    then 330 ∷ 110 ∷ 40 ∷ 20 ∷ 11 ∷ 6 ∷ 3 ∷ 6 ∷ 11 ∷ 20 ∷ 40 ∷ 110 ∷ 330 ∷ []
    else if rows == 16
    then 1100 ∷ 410 ∷ 100 ∷ 50 ∷ 30 ∷ 15 ∷ 10 ∷ 5 ∷ 3 ∷ 5 ∷ 10 ∷ 15 ∷ 30 ∷ 50 ∷ 100 ∷ 410 ∷ 1100
      ∷ []
    else []
bucket_tenths high rows =
    if rows == 8
    then 290 ∷ 40 ∷ 15 ∷ 3 ∷ 2 ∷ 3 ∷ 15 ∷ 40 ∷ 290 ∷ []
    else if rows == 12
    then 1700 ∷ 240 ∷ 81 ∷ 20 ∷ 7 ∷ 2 ∷ 2 ∷ 2 ∷ 7 ∷ 20 ∷ 81 ∷ 240 ∷ 1700 ∷ []
    else if rows == 16
    then 10000 ∷ 1300 ∷ 260 ∷ 90 ∷ 40 ∷ 20 ∷ 2 ∷ 2 ∷ 2 ∷ 2 ∷ 2 ∷ 20 ∷ 40 ∷ 90 ∷ 260 ∷ 1300 ∷ 10000
      ∷ []
    else []

unfoldable pub plinko_buckets : Risk → ℕ → List Number
unfolding bucket_tenths decimal
plinko_buckets risk rows = map (λ t. decimal t 10) (bucket_tenths risk rows)

-- `m >= 1` and `m < 1`
unfoldable pub returns : Number → Bool
unfolding whole
returns m = le (whole 1) m

unfoldable pub returns_less : Number → Bool
unfolding whole
returns_less m = lt m (whole 1)

unfoldable pub plinko_pool : List Number → Bool → List ℕ
unfolding indexes_from returns returns_less
plinko_pool buckets true =
    or_fallback (indexes_from returns 0 buckets) (indexes_from returns_less 0 buckets)
plinko_pool buckets false =
    or_fallback (indexes_from returns_less 0 buckets) (indexes_from returns 0 buckets)

abbrev pub sum : List ℕ → ℕ
sum [] = 0
sum (x ∷ xs) = x + sum xs

-- The path that steps right at the given rows.
abbrev pub path_of : List ℕ → List ℕ → List ℕ
path_of rights rows = map (λ i. one_if (includes rights i)) rows

module _ (hmac : Hmac) where
  unfoldable pub plinko_path_for_bucket : ℕ → ℕ → SeedContext → List ℕ
  unfolding seeded_shuffle
  plinko_path_for_bucket rows bucket seeds =
      path_of (take bucket (seeded_shuffle hmac (range_from 0 rows) seeds 80)) (range_from 0 rows)

  -- The path rolled honestly: a step right for each float of 0.5 or more.
  unfoldable pub rolled_path : ℕ → SeedContext → List ℕ
  unfolding seeded_float decimal
  rolled_path rows seeds =
      map (λ i. one_if (not (lt (seeded_float hmac seeds i) (decimal 1 2)))) (range_from 0 rows)

  -- The path and the bucket.
  unfoldable pub plinko_drop : PlinkoSelection → SeedContext → ForcedResult → List ℕ × ℕ
  unfolding rolled_path plinko_buckets plinko_pool seeded_int plinko_path_for_bucket
  plinko_drop sel seeds none = let path = rolled_path sel.rows seeds in (path, sum path)
  plinko_drop sel seeds (some f) =
      let pool = plinko_pool (plinko_buckets sel.risk sel.rows) f in
      let bucket = get_or pool (seeded_int hmac seeds 0 (length pool - 1) 90) 0 in
      (plinko_path_for_bucket sel.rows bucket seeds, bucket)

  unfoldable pub resolve_plinko :
      PlinkoSelection → SeedContext → ForcedResult → Number → RoundResult
  unfolding plinko_drop plinko_buckets whole
  resolve_plinko sel seeds forced max_multiplier =
      let (path, bucket) = plinko_drop sel seeds forced in
      let paid = get_or (plinko_buckets sel.risk sel.rows) bucket (whole 0) in
      let multiplier = min_of paid max_multiplier in
      record {
        won = lt (whole 0) multiplier;
        multiplier = multiplier;
        outcome = Outcome.plinko bucket path multiplier;
      }

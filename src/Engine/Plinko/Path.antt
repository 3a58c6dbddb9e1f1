-- ===== src/Engine/Plinko/Path.antt =====
-- The path of a Plinko ball and the bucket that it falls into.
use crispy_enigma.Base.{
  ℕ, ◌≤◌, ◌≡◌, refl, ◌∙◌, Bool, true, false, not, none, some, arith, List, [], ◌∷◌, map, length,
  get_or, take, range_from, includes, one_if, leb, ltb, leb→le, IsDistinct, Within,
  count-range_from, take-IsDistinct, take-Within, range_from-IsDistinct, range_from-Within,
  length-take, length-range_from, ◌&&◌, keep, length-keep-includes, length-map,
}
use crispy_enigma.Number.{Number, whole, lt, decimal}
use crispy_enigma.Contracts.{Risk, low, medium, high, PlinkoSelection, ForcedResult, SeedContext}
use crispy_enigma.Engine.Rng.{Hmac, seeded_shuffle, seeded_float}
use crispy_enigma.Engine.Rng.Bounds.{Digests, seeded_index-lt}
use crispy_enigma.Engine.Rng.Shuffle.{
  length-seeded_shuffle, seeded_shuffle-IsDistinct, seeded_shuffle-Within,
}
use crispy_enigma.Engine.Odds.{all_of, all_of-get_or, all_of-includes}
use crispy_enigma.Engine.Plinko.{
  plinko_buckets, plinko_pool, plinko_path_for_bucket, rolled_path, plinko_drop, sum, path_of,
  plinko_rows, returns, returns_less,
}

sum-map-eq-length :
    (f : ℕ → Bool) (xs : List ℕ) → sum (map (λ i. one_if (f i)) xs) ≡ length (keep f xs)
sum-map-eq-length f [] = refl
sum-map-eq-length f (x ∷ xs) = ground (arith, sum-map-eq-length f xs)

-- A path steps right as often as rows are given for it.
sum-path_of :
    (n : ℕ) (rights : List ℕ)
    → IsDistinct rights
    → Within 0 n rights
    → sum (path_of rights (range_from 0 n)) ≡ length rights
sum-path_of n rights d w =
    sum-map-eq-length (includes rights) (range_from 0 n)
    ∙ length-keep-includes rights (range_from 0 n) d
        (λ a k. ground (arith, count-range_from a 0 n, w a k))

sum-map-le : (f : ℕ → Bool) (xs : List ℕ) → sum (map (λ i. one_if (f i)) xs) ≤ length xs
sum-map-le f [] = omega arith
sum-map-le f (x ∷ xs) = ground (arith, sum-map-le f xs)

-- Whether the bucket at an index returns the stake.
abbrev pub agrees : List Number → Bool → ℕ → Bool
agrees buckets true i = returns (get_or buckets i (whole 0))
agrees buckets false i = returns_less (get_or buckets i (whole 0))

-- What is checked of each pool: its buckets exist, and they agree with the forced result.
pool_check : Risk → ℕ → Bool → Bool
pool_check risk rows f =
    let buckets = plinko_buckets risk rows in
    let pool = plinko_pool buckets f in
    ltb 0 (length pool)
    && leb (length pool) 17
    && all_of (λ i. leb i rows) pool
    && all_of (agrees buckets f) pool

pool_checks :
    (risk : Risk)
    → all_of (λ rows. pool_check risk rows true && pool_check risk rows false) plinko_rows ≡ true
unfolding pool_check plinko_buckets plinko_pool
pool_checks low = refl
pool_checks medium = refl
pool_checks high = refl

pool_check_lem :
    (risk : Risk) (rows : ℕ) (f : Bool)
    → includes plinko_rows rows ≡ true
    → pool_check risk rows f ≡ true
pool_check_lem risk rows f h = both f (
    all_of-includes (λ n. pool_check risk n true && pool_check risk n false) plinko_rows rows
      (pool_checks risk) h)
  where
    both :
        (g : Bool)
        → (pool_check risk rows true && pool_check risk rows false) ≡ true
        → pool_check risk rows g ≡ true
    both true k = ground arith
    both false k = ground arith

module _ (risk : Risk) (rows : ℕ) (f : Bool) (h : includes plinko_rows rows ≡ true) where
  pool_size :
      let pool = plinko_pool (plinko_buckets risk rows) f in (1 ≤ length pool) × (length pool ≤ 17)
  unfolding pool_check
  pool_size = ground (arith, pool_check_lem risk rows f h)

  pool_inside : all_of (λ i. leb i rows) (plinko_pool (plinko_buckets risk rows) f) ≡ true
  unfolding pool_check
  pool_inside = ground (arith, pool_check_lem risk rows f h)

  pool_agrees :
      all_of (agrees (plinko_buckets risk rows) f) (plinko_pool (plinko_buckets risk rows) f) ≡ true
  unfolding pool_check
  pool_agrees = ground (arith, pool_check_lem risk rows f h)

-- A path over all rows that ends in the bucket, which is one of the rows + 1 of the table.
pub record IsDrop (rows : ℕ) (path : List ℕ) (bucket : ℕ) : Type 0 where
  pub size : length path ≡ rows
  pub ends : sum path ≡ bucket
  pub in_table : bucket ≤ rows

rows_small : (rows : ℕ) → includes plinko_rows rows ≡ true → rows ≤ 16
rows_small rows h = ground arith

module _ (hmac : Hmac) where
  rolled_path-IsDrop :
      (rows : ℕ) (seeds : SeedContext)
      → IsDrop rows (rolled_path hmac rows seeds) (sum (rolled_path hmac rows seeds))
  unfolding rolled_path
  rolled_path-IsDrop rows seeds =
      let right = λ (i : ℕ). not (lt (seeded_float hmac seeds i) (decimal 1 2)) in
      let size = length-map (λ i. one_if (right i)) (range_from 0 rows) in
      record {
        size = size ∙ length-range_from 0 rows;
        ends = refl;
        in_table = omega (arith, sum-map-le right (range_from 0 rows), length-range_from 0 rows);
      }

  path_for_bucket-IsDrop :
      (rows bucket : ℕ) (seeds : SeedContext)
      → bucket ≤ rows
      → IsDrop rows (plinko_path_for_bucket hmac rows bucket seeds) bucket
  unfolding plinko_path_for_bucket
  path_for_bucket-IsDrop rows bucket seeds h =
      let all_rows = range_from 0 rows in
      let shuffled = seeded_shuffle hmac all_rows seeds 80 in
      let rights = take bucket shuffled in
      let steps =
        sum-path_of rows rights
          (take-IsDistinct bucket shuffled
            (seeded_shuffle-IsDistinct hmac seeds all_rows 80 (range_from-IsDistinct 0 rows)))
          (take-Within bucket 0 rows shuffled (
            seeded_shuffle-Within hmac seeds 0 rows all_rows 80
              (range_from-Within 0 rows rows (omega arith)))) in
      record {
        size = length-map (λ i. one_if (includes rights i)) all_rows ∙ length-range_from 0 rows;
        ends = omega (
          arith,
          steps,
          length-take bucket shuffled,
          length-seeded_shuffle hmac seeds all_rows 80,
          length-range_from 0 rows,
        );
        in_table = h;
      }

module _ (hmac : Hmac) (hex : Digests hmac) where
  -- The bucket of a forced drop passes what is checked of its pool.
  forced_bucket :
      (sel : PlinkoSelection) (seeds : SeedContext) (f : Bool) (test : ℕ → Bool)
      → includes plinko_rows sel.rows ≡ true
      → all_of test (plinko_pool (plinko_buckets sel.risk sel.rows) f) ≡ true
      → test (plinko_drop hmac sel seeds (some f)).1 ≡ true
  unfolding plinko_drop
  forced_bucket sel seeds f test h passed =
      let pool = plinko_pool (plinko_buckets sel.risk sel.rows) f in
      let (some_index, few) = pool_size sel.risk sel.rows f h in
      all_of-get_or test pool _ 0 passed
        (seeded_index-lt hmac seeds (length pool) 90 hex some_index (omega arith))

  -- On a board of 8, 12 or 16 rows a ball takes one step for each row, and the bucket is the number
  -- of its steps to the right, one of those of the table, forced or not.
  pub plinko_drop-IsDrop :
      (sel : PlinkoSelection) (seeds : SeedContext) (forced : ForcedResult)
      → includes plinko_rows sel.rows ≡ true
      → let (path, bucket) = plinko_drop hmac sel seeds forced in IsDrop sel.rows path bucket
  plinko_drop-IsDrop sel seeds none h = unfold plinko_drop in rolled_path-IsDrop hmac sel.rows seeds
  plinko_drop-IsDrop sel seeds (some f) h =
      let inside =
        leb→le _ _
          (forced_bucket sel seeds f (λ i. leb i sel.rows) h (pool_inside sel.risk sel.rows f h)) in
      unfold plinko_drop in
      path_for_bucket-IsDrop hmac sel.rows (plinko_drop hmac sel seeds (some f)).1 seeds inside

  -- The bucket of a forced win pays the stake back at least, and that of a forced loss pays less.
  pub plinko_drop_forced :
      (sel : PlinkoSelection) (seeds : SeedContext) (f : Bool)
      → includes plinko_rows sel.rows ≡ true
      → agrees (plinko_buckets sel.risk sel.rows) f (plinko_drop hmac sel seeds (some f)).1 ≡ true
  plinko_drop_forced sel seeds f h =
      forced_bucket sel seeds f (agrees (plinko_buckets sel.risk sel.rows) f) h
        (pool_agrees sel.risk sel.rows f h)

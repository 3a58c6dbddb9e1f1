-- ===== src/Engine/Keno/Draw.antt =====
-- The draw of a Keno round: ten different spots, and as many hits as a forced round wants.
use crispy_enigma.Base.{
  ℕ, ◌+◌, ◌-◌, ◌≤◌, ◌<◌, ◌≡◌, ◌∙◌, ap, true, not, arith, List, ◌++◌, length, take, keep, count,
  count-keep, count-append, count-take-le, length-append, length-take, IsDistinct, Within, includes,
  includes-eq-count, length-keep-not, length-keep-includes, keep_congr, SameItems,
}
use crispy_enigma.Contracts.{SeedContext}
use crispy_enigma.Engine.Rng.{Hmac, seeded_shuffle}
use crispy_enigma.Engine.Rng.Shuffle.{
  length-seeded_shuffle, seeded_shuffle-IsDistinct, seeded_shuffle-Within, seeded_shuffle-SameItems,
}
use crispy_enigma.Engine.Keno.{forced_draw, keno_draw_count}
use crispy_enigma.Engine.Keno.Picks.{ArePicks}

-- Ten different spots of the board.
pub record IsDraw (drawn : List ℕ) : Type 0 where
  pub size : length drawn ≡ keno_draw_count
  pub distinct : IsDistinct drawn
  pub on_board : Within 1 51 drawn

-- A draw mixed of some of the picks and of spots that are none.
module _ (picks hit_pool miss_pool : List ℕ) (h : ℕ) (p : ArePicks picks)
    (le : h ≤ length picks) where
  abbrev mixed : List ℕ
  mixed = take h hit_pool ++ take (keno_draw_count - h) miss_pool

  module _ (same : SameItems hit_pool picks)
      (apart : (a : ℕ) → includes picks a ≡ true → count a miss_pool ≡ 0) where
    -- Of the picks, just the chosen hits are drawn.
    mixed-hits : length hit_pool ≡ length picks → length (keep (includes mixed) picks) ≡ h
    mixed-hits size =
        let hits = take h hit_pool in
        let misses = take (keno_draw_count - h) miss_pool in
        let met = keep_congr (includes mixed) (includes hits) picks λ a k. ground (
          arith,
          includes-eq-count a mixed,
          includes-eq-count a hits,
          includes-eq-count a picks,
          count-append a hits misses,
          count-take-le a (keno_draw_count - h) miss_pool,
          apart a,
        ) in
        let each : (a : ℕ) → 0 < count a hits → count a picks ≡ 1 =
          λ a k. omega (arith, k, count-take-le a h hit_pool, same a, p.distinct a) in
        let distinct : IsDistinct hits =
          λ a. omega (arith, count-take-le a h hit_pool, same a, p.distinct a) in
        omega (
          arith,
          ap (length {A = ℕ}) met,
          length-keep-includes hits picks distinct each,
          length-take h hit_pool,
        )

    -- Neither a hit nor a miss is drawn twice.
    mixed-IsDraw :
        length hit_pool ≡ length picks
        → length picks + length miss_pool ≡ 50
        → IsDistinct miss_pool
        → Within 1 51 miss_pool
        → IsDraw mixed
    mixed-IsDraw size total distinct within = record {
      size = omega (
        arith,
        length-append (take h hit_pool) (take (keno_draw_count - h) miss_pool),
        length-take h hit_pool,
        length-take (keno_draw_count - h) miss_pool,
        p.few,
      );
      distinct = λ a. ground (
        arith,
        count-append a (take h hit_pool) (take (keno_draw_count - h) miss_pool),
        count-take-le a h hit_pool,
        count-take-le a (keno_draw_count - h) miss_pool,
        same a,
        p.distinct a,
        distinct a,
        apart a,
        includes-eq-count a picks,
      );
      on_board = λ a k. ground (
        arith,
        count-append a (take h hit_pool) (take (keno_draw_count - h) miss_pool),
        count-take-le a h hit_pool,
        count-take-le a (keno_draw_count - h) miss_pool,
        same a,
        p.on_board a,
        within a,
      );
    }

-- The spots of a board that are no picks.
module _ (picks board : List ℕ) (p : ArePicks picks) where
  others_size :
      length board ≡ 50
      → ((a : ℕ) → 0 < count a picks → count a board ≡ 1)
      → length picks + length (keep (λ n. not (includes picks n)) board) ≡ 50
  others_size size once = omega (
    arith,
    length-keep-not (includes picks) board,
    length-keep-includes picks board p.distinct once,
  )

  module _ (hmac : Hmac) (seeds : SeedContext) (h : ℕ) (le : h ≤ length picks)
      (size : length board ≡ 50) (once : (a : ℕ) → 0 < count a picks → count a board ≡ 1) where
    abbrev hit_pool : List ℕ
    hit_pool = seeded_shuffle hmac picks seeds 20

    abbrev others : List ℕ
    others = keep (λ n. not (includes picks n)) board

    abbrev miss_pool : List ℕ
    miss_pool = seeded_shuffle hmac others seeds 40

    apart : (a : ℕ) → includes picks a ≡ true → count a miss_pool ≡ 0
    apart a e =
        seeded_shuffle-SameItems hmac seeds others 40 a
        ∙ ground (arith, count-keep (λ n. not (includes picks n)) a board)

    pub forced_draw-hits : length (keep (includes (forced_draw hmac board picks seeds h)) picks) ≡ h
    unfolding forced_draw
    forced_draw-hits =
        mixed-hits picks hit_pool miss_pool h p le (seeded_shuffle-SameItems hmac seeds picks 20)
          apart (length-seeded_shuffle hmac seeds picks 20)

    pub forced_draw-IsDraw :
        IsDistinct board → Within 1 51 board → IsDraw (forced_draw hmac board picks seeds h)
    unfolding forced_draw
    forced_draw-IsDraw distinct within =
        mixed-IsDraw picks hit_pool miss_pool h p le (seeded_shuffle-SameItems hmac seeds picks 20)
          apart (length-seeded_shuffle hmac seeds picks 20)
          (omega (arith, length-seeded_shuffle hmac seeds others 40, others_size size once))
          (seeded_shuffle-IsDistinct hmac seeds others 40
            (λ a. ground (arith, count-keep (λ n. not (includes picks n)) a board, distinct a)))
          (seeded_shuffle-Within hmac seeds 1 51 others 40
            (λ a k. ground (arith, count-keep (λ n. not (includes picks n)) a board, within a)))

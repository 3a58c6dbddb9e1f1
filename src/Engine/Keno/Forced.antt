-- ===== src/Engine/Keno/Forced.antt =====
-- A settled Keno round: the draw, and a forced win or loss.
use crispy_enigma.Base.{
  ℕ, ◌-◌, ◌≤◌, ◌<◌, ◌≡◌, sym, ◌∙◌, ap, Bool, true, false, none, some, arith, List, length, keep,
  count, count-sorted, count-range_from, sorted, Within, includes, includes-eq-count, range_from,
  range_from-IsDistinct, range_from-Within, length-take, length-range_from, keep_congr,
  take-IsDistinct, take-Within, ltb,
}
use crispy_enigma.Number.{Number, whole, lt, min_of}
use crispy_enigma.Number.Order.{lt-min_of, min_of-lt-false}
use crispy_enigma.Contracts.{ForcedResult, SeedContext}
use crispy_enigma.Engine.Rng.{Hmac, seeded_shuffle}
use crispy_enigma.Engine.Rng.Bounds.{Digests, seeded_int_bounds}
use crispy_enigma.Engine.Rng.Shuffle.{
  length-seeded_shuffle, seeded_shuffle-IsDistinct, seeded_shuffle-Within,
}
use crispy_enigma.Engine.Keno.{
  keno_draw, forced_hits, keno_min_paying_hits, keno_spot_count, keno_draw_count, keno_payout,
  resolve_keno, unique,
}
use crispy_enigma.Engine.Keno.Picks.{
  ArePicks, sorted-unique-ArePicks, min_paying_hits_bounds, min_paying_hits_pay,
  fewer_hits_pay_nothing,
}
use crispy_enigma.Engine.Keno.Draw.{IsDraw, forced_draw-IsDraw, forced_draw-hits}

once_on_board :
    (picks : List ℕ)
    → Within 1 51 picks
    → (a : ℕ) → 0 < count a picks
    → count a (range_from 1 50) ≡ 1
once_on_board picks w a k = ground (arith, count-range_from a 1 50, w a k)

module _ (hmac : Hmac) (hex : Digests hmac) (picks : List ℕ) (p : ArePicks picks)
    (seeds : SeedContext) where
  forced_hits_win : forced_hits hmac (length picks) seeds true ≤ length picks
  unfolding forced_hits
  forced_hits_win = (min_paying_hits_bounds (length picks) p.some_pick p.few).1

  forced_hits_loss :
      forced_hits hmac (length picks) seeds false < keno_min_paying_hits (length picks)
  unfolding forced_hits
  forced_hits_loss =
      let (some_need, fits) = min_paying_hits_bounds (length picks) p.some_pick p.few in
      let need = keno_min_paying_hits (length picks) in
      omega (
        arith,
        (seeded_int_bounds hmac seeds 0 (need - 1) 70 hex (omega arith) (omega (arith, p.few))).1,
      )

  forced_hits-le : (f : Bool) → forced_hits hmac (length picks) seeds f ≤ length picks
  forced_hits-le true = forced_hits_win
  forced_hits-le false =
      omega (arith, forced_hits_loss, min_paying_hits_bounds (length picks) p.some_pick p.few)

  -- Every draw, forced or not, is of ten different spots of the board.
  pub keno_draw-IsDraw : (forced : ForcedResult) → IsDraw (keno_draw hmac picks seeds forced)
  unfolding keno_draw
  keno_draw-IsDraw none =
      let board = range_from 1 keno_spot_count in
      let shuffled = seeded_shuffle hmac board seeds 0 in
      record {
        size = omega (
          arith,
          length-take keno_draw_count shuffled,
          length-seeded_shuffle hmac seeds board 0,
          length-range_from 1 keno_spot_count,
        );
        distinct = take-IsDistinct keno_draw_count shuffled (
            seeded_shuffle-IsDistinct hmac seeds board 0 (range_from-IsDistinct 1 keno_spot_count));
        on_board = take-Within keno_draw_count 1 51 shuffled (
            seeded_shuffle-Within hmac seeds 1 51 board 0
              (range_from-Within 1 keno_spot_count 51 (omega arith)));
      }
  keno_draw-IsDraw (some f) =
      forced_draw-IsDraw picks (range_from 1 keno_spot_count) p hmac seeds
        (forced_hits hmac (length picks) seeds f) (forced_hits-le f)
        (length-range_from 1 keno_spot_count) (once_on_board picks p.on_board)
        (range_from-IsDistinct 1 keno_spot_count)
        (range_from-Within 1 keno_spot_count 51 (omega arith))

  -- A forced draw meets the forced number of the picks.
  keno_draw-hits :
      (f : Bool)
      → length (keep (includes (keno_draw hmac picks seeds (some f))) picks)
        ≡ forced_hits hmac (length picks) seeds f
  unfolding keno_draw
  keno_draw-hits f =
      forced_draw-hits picks (range_from 1 keno_spot_count) p hmac seeds
        (forced_hits hmac (length picks) seeds f) (forced_hits-le f)
        (length-range_from 1 keno_spot_count) (once_on_board picks p.on_board)

  abbrev drawn : Bool → List ℕ
  drawn f = sorted (keno_draw hmac picks seeds (some f))

  hits-drawn :
      (f : Bool)
      → length (keep (includes (drawn f)) picks) ≡ forced_hits hmac (length picks) seeds f
  hits-drawn f =
      let draw = keno_draw hmac picks seeds (some f) in
      let same = keep_congr (includes (sorted draw)) (includes draw) picks λ a k.
        includes-eq-count a (sorted draw)
        ∙ ap (ltb 0) (count-sorted a draw)
        ∙ sym (includes-eq-count a draw) in
      ap (length {A = ℕ}) same ∙ keno_draw-hits f

  -- The multiplier of a forced round is positive exactly for a forced win.
  payout_forced :
      (max_multiplier : Number) (f : Bool)
      → lt (whole 0) max_multiplier ≡ true
      → lt (whole 0) (
          min_of
            (keno_payout (length picks) (forced_hits hmac (length picks) seeds f))
            max_multiplier)
        ≡ f
  payout_forced m true h =
      lt-min_of (whole 0) _ m
        (unfold forced_hits in min_paying_hits_pay (length picks) p.some_pick p.few) h
  payout_forced m false h =
      min_of-lt-false (whole 0) _ m
        (fewer_hits_pay_nothing (length picks) p.some_pick p.few _ forced_hits_loss)

module _ (hmac : Hmac) (hex : Digests hmac) where
  -- For one to ten selected numbers of the board, a forced round of Keno is won exactly as it is
  -- forced, if the game's top multiplier is positive.
  pub resolve_keno_forced :
      (selected : List ℕ) (seeds : SeedContext) (f : Bool) (max_multiplier : Number)
      → 1 ≤ length selected
      → length selected ≤ 10
      → Within 1 51 selected
      → lt (whole 0) max_multiplier ≡ true
      → (resolve_keno hmac selected seeds (some f) max_multiplier).won ≡ f
  unfolding resolve_keno
  resolve_keno_forced selected seeds f m some_pick few within h =
      let picks = sorted (unique selected) in
      let p = sorted-unique-ArePicks selected some_pick few within in
      rw (hits-drawn hmac hex picks p seeds f) (payout_forced hmac hex picks p seeds m f h)

-- ===== src/Engine/Keno.antt =====
-- `KENO_PAYTABLE`, `kenoPayout`, `kenoMinPayingHits` and `resolveKeno` of
-- libs/engine/src/rules.ts.
pub mod Picks
pub mod Draw
pub mod Forced
use crispy_enigma.Base.{
  ℕ, zero, suc, ◌+◌, ◌-◌, List, [], ◌∷◌, ◌++◌, Bool, true, false, not, if◌then◌else◌, Option, none,
  some, length, take, range_from, includes, keep, sorted, ◌==◌, min,
}
use crispy_enigma.Number.{Number, whole, decimal, lt, min_of}
use crispy_enigma.Contracts.{ForcedResult, Outcome, RoundResult, SeedContext}
use crispy_enigma.Engine.Rng.{Hmac, seeded_int, seeded_shuffle}

abbrev pub keno_spot_count : ℕ
keno_spot_count = 50

abbrev pub keno_draw_count : ℕ
keno_draw_count = 10

abbrev pub keno_max_picks : ℕ
keno_max_picks = 10

-- The row of the table for a count of picks: hits with their payout in hundredths.
unfoldable pub keno_paytable : ℕ → List (ℕ × ℕ)
keno_paytable pick_count =
    if pick_count == 1
    then (1, 396) ∷ []
    else if pick_count == 2
    then (2, 1700) ∷ []
    else if pick_count == 3
    then (2, 220) ∷ (3, 4800) ∷ []
    else if pick_count == 4
    then (2, 160) ∷ (3, 600) ∷ (4, 9000) ∷ []
    else if pick_count == 5
    then (3, 330) ∷ (4, 1300) ∷ (5, 30000) ∷ []
    else if pick_count == 6
    then (3, 200) ∷ (4, 500) ∷ (5, 4800) ∷ (6, 71000) ∷ []
    else if pick_count == 7
    then (4, 600) ∷ (5, 1800) ∷ (6, 12000) ∷ (7, 80000) ∷ []
    else if pick_count == 8
    then (5, 1000) ∷ (6, 5000) ∷ (7, 40000) ∷ (8, 100000) ∷ []
    else if pick_count == 9
    then (5, 600) ∷ (6, 2200) ∷ (7, 12000) ∷ (8, 80000) ∷ (9, 100000) ∷ []
    else if pick_count == 10
    then (5, 500) ∷ (6, 2400) ∷ (7, 8000) ∷ (8, 50000) ∷ (9, 80000) ∷ (10, 100000) ∷ []
    else []

unfoldable pub paid_hundredths : List (ℕ × ℕ) → ℕ → ℕ
paid_hundredths [] hit_count = 0
paid_hundredths ((h, m) ∷ row) hit_count =
    if h == hit_count then m else paid_hundredths row hit_count

-- A missing key pays 0.
unfoldable pub keno_payout : ℕ → ℕ → Number
unfolding keno_paytable paid_hundredths decimal
keno_payout pick_count hit_count =
    decimal (paid_hundredths (keno_paytable pick_count) hit_count) 100

unfoldable pub least_hits : ℕ → List (ℕ × ℕ) → ℕ
least_hits best [] = best
least_hits best ((h, _) ∷ row) = least_hits (min best h) row

unfoldable pub keno_min_paying_hits : ℕ → ℕ
unfolding keno_paytable least_hits
keno_min_paying_hits pick_count = elim (keno_paytable pick_count) [
  | [] ↦ pick_count
  | (h, _) ∷ row ↦ least_hits h row
]

-- `[...new Set(xs)]`
unfoldable pub unique : List ℕ → List ℕ
unique [] = []
unique (x ∷ xs) = x ∷ keep (λ y. not (y == x)) (unique xs)

module _ (hmac : Hmac) where
  -- How many picks a forced round hits.
  unfoldable pub forced_hits : ℕ → SeedContext → Bool → ℕ
  forced_hits pick_count seeds true = keno_min_paying_hits pick_count
  forced_hits pick_count seeds false =
      seeded_int hmac seeds 0 (keno_min_paying_hits pick_count - 1) 70

  -- The hits and the misses of a forced round, shuffled each on their own.
  unfoldable pub forced_draw : List ℕ → List ℕ → SeedContext → ℕ → List ℕ
  forced_draw pool picks seeds hit_count =
      let others = keep (λ n. not (includes picks n)) pool in
      take hit_count (seeded_shuffle hmac picks seeds 20)
      ++ take (keno_draw_count - hit_count) (seeded_shuffle hmac others seeds 40)

  -- The drawn spots, for sorted picks with no repeats.
  unfoldable pub keno_draw : List ℕ → SeedContext → ForcedResult → List ℕ
  keno_draw picks seeds none =
      take keno_draw_count (seeded_shuffle hmac (range_from 1 keno_spot_count) seeds 0)
  keno_draw picks seeds (some f) =
      forced_draw (range_from 1 keno_spot_count) picks seeds (forced_hits (length picks) seeds f)

  unfoldable pub resolve_keno : List ℕ → SeedContext → ForcedResult → Number → RoundResult
  resolve_keno selected seeds forced max_multiplier =
      let picks = sorted (unique selected) in
      let drawn = sorted (keno_draw picks seeds forced) in
      let hits = keep (includes drawn) picks in
      let multiplier = min_of (keno_payout (length picks) (length hits)) max_multiplier in
      record {
        won = lt (whole 0) multiplier;
        multiplier = multiplier;
        outcome = Outcome.keno drawn hits (length hits);
      }

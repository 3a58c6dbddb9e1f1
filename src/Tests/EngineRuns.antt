-- ===== src/Tests/EngineRuns.antt =====
-- The engine's theorems at one digest and one pair of seeds.
use mathlib.Core.List.{Perm}
use crispy_enigma.Base.{
  ◌≡◌, refl, ℕ, ◌≤◌, List, [], ◌∷◌, true, false, some, arith, length, All, Within,
}
use crispy_enigma.Number.{whole, lt}
use crispy_enigma.Contracts.{Risk, Difficulty, PlinkoSelection, SeedContext}
use crispy_enigma.Engine.Rng.{Hmac, filled, seeded_int, shuffle_from, seeded_shuffle}
use crispy_enigma.Engine.Rng.Bounds.{Digests, seeded_int_bounds}
use crispy_enigma.Engine.Rng.Slots.{seeded_shuffle-filled}
use crispy_enigma.Engine.Layout.{IsLayout}
use crispy_enigma.Engine.Mines.{build_mines_grid}
use crispy_enigma.Engine.Mines.Grid.{build_mines_grid-IsLayout}
use crispy_enigma.Engine.Towers.{build_towers_grid}
use crispy_enigma.Engine.Towers.Grid.{IsFloor, build_towers_grid_lem}
use crispy_enigma.Engine.Wheel.{resolve_wheel}
use crispy_enigma.Engine.Wheel.Forced.{resolve_wheel_forced}
use crispy_enigma.Engine.Plinko.{plinko_drop, plinko_buckets}
use crispy_enigma.Engine.Plinko.Path.{IsDrop, plinko_drop-IsDrop, plinko_drop_forced, agrees}
use crispy_enigma.Engine.Keno.{resolve_keno, keno_draw}
use crispy_enigma.Engine.Keno.Picks.{ArePicks}
use crispy_enigma.Engine.Keno.Draw.{IsDraw}
use crispy_enigma.Engine.Keno.Forced.{resolve_keno_forced, keno_draw-IsDraw}

-- A digest of fourteen hex digits that ignores its input.
abbrev pub digest : Hmac
digest key text = 11 ∷ 4 ∷ 15 ∷ 0 ∷ 7 ∷ 2 ∷ 9 ∷ 3 ∷ 12 ∷ 1 ∷ 8 ∷ 5 ∷ 6 ∷ 10 ∷ []

digest-Digests : Digests digest
digest-Digests key text = omega arith

abbrev seeds : SeedContext
seeds = record { server_seed = "server"; client_seed = "client"; nonce = 7 }

seeded_int_bounds_example :
    (3 ≤ seeded_int digest seeds 3 9 0) × (seeded_int digest seeds 3 9 0 ≤ 9)
seeded_int_bounds_example =
    seeded_int_bounds digest seeds 3 9 0 digest-Digests (omega arith) (omega arith)

abbrev cards : List ℕ
cards = 5 ∷ 8 ∷ 8 ∷ 1 ∷ []

seeded_shuffle-filled_example :
    (shuffle_from digest seeds 2 3 (filled cards) ≡ filled (seeded_shuffle digest cards seeds 2))
    × Perm (seeded_shuffle digest cards seeds 2) cards
seeded_shuffle-filled_example =
    seeded_shuffle-filled digest seeds digest-Digests cards 2 (omega arith)

build_mines_grid-IsLayout_example : IsLayout 25 5 (build_mines_grid digest 5 seeds (some false))
build_mines_grid-IsLayout_example = build_mines_grid-IsLayout digest 5 seeds (some false)

build_towers_grid_lem_example :
    (length (build_towers_grid digest Difficulty.easy seeds) ≡ 10)
    × All (IsFloor Difficulty.easy) (build_towers_grid digest Difficulty.easy seeds)
build_towers_grid_lem_example = build_towers_grid_lem digest Difficulty.easy seeds

resolve_wheel_forced_example : (resolve_wheel digest Risk.medium seeds (some false)).won ≡ false
resolve_wheel_forced_example = resolve_wheel_forced digest digest-Digests Risk.medium seeds false

abbrev drop : PlinkoSelection
drop = record { risk = Risk.high; rows = 12 }

plinko_drop-IsDrop_example :
    let (path, bucket) = plinko_drop digest drop seeds (some true) in IsDrop 12 path bucket
plinko_drop-IsDrop_example = plinko_drop-IsDrop digest digest-Digests drop seeds (some true) refl

plinko_drop_forced_example :
    agrees (plinko_buckets Risk.high 12) true (plinko_drop digest drop seeds (some true)).1 ≡ true
plinko_drop_forced_example = plinko_drop_forced digest digest-Digests drop seeds true refl

abbrev numbers : List ℕ
numbers = 4 ∷ 17 ∷ 50 ∷ []

numbers-Within : Within 1 51 numbers
numbers-Within a h = ground arith

zero-lt-thousand : lt (whole 0) (whole 1_000) ≡ true
unfolding whole
zero-lt-thousand = refl

resolve_keno_forced_example :
    (resolve_keno digest numbers seeds (some true) (whole 1_000)).won ≡ true
resolve_keno_forced_example =
    resolve_keno_forced digest digest-Digests numbers seeds true (whole 1_000) (omega arith)
      (omega arith) numbers-Within zero-lt-thousand

numbers-ArePicks : ArePicks numbers
numbers-ArePicks = record {
  some_pick = omega arith;
  few = omega arith;
  distinct = λ a. ground arith;
  on_board = numbers-Within;
}

keno_draw-IsDraw_example : IsDraw (keno_draw digest numbers seeds (some false))
keno_draw-IsDraw_example =
    keno_draw-IsDraw digest digest-Digests numbers numbers-ArePicks seeds (some false)

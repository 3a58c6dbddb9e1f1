-- ===== src/Contracts.antt =====
-- The shared types of libs/contracts/src/games.ts. Numbers that the code has checked to be whole
-- (picks, tiles, rows, mine counts, nonces) are naturals; all others are doubles.
use Prim.Native.String.{String}
use crispy_enigma.Base.{ℕ, Bool, true, false, Option, List}
use crispy_enigma.Number.{Number}

pub data GameSlug : Type 0 where
  dice coin_flip limbo wheel mines plinko towers keno : GameSlug

-- `isInstantGame`: the members of `INSTANT_GAMES`
unfoldable pub is_instant_game : GameSlug → Bool
is_instant_game GameSlug.mines = false
is_instant_game GameSlug.towers = false
is_instant_game slug = true

pub data Direction : Type 0 where
  over under : Direction

pub data Side : Type 0 where
  heads tails : Side

pub data Risk : Type 0 where
  low medium high : Risk

pub data Difficulty : Type 0 where
  easy medium hard expert : Difficulty

pub record DiceSelection : Type 0 where
  pub target : Number
  pub direction : Direction

pub record PlinkoSelection : Type 0 where
  pub risk : Risk
  pub rows : ℕ

-- `GameSelection`, tagged by its game
pub data Selection : Type 0 where
  dice : DiceSelection → Selection
  coin_flip : Side → Selection
  limbo : Number → Selection
  wheel : Risk → Selection
  mines : ℕ → Selection
  plinko : PlinkoSelection → Selection
  towers : Difficulty → Selection
  keno : List ℕ → Selection

-- `GameOutcome`, tagged by its game
pub data Outcome : Type 0 where
  dice : Number → Outcome
  coin_flip : Side → Outcome
  limbo : Number → Outcome
  wheel : ℕ → Number → Outcome
  mines : List ℕ → List ℕ → Outcome
  plinko : ℕ → List ℕ → Number → Outcome
  towers : List (List ℕ) → List ℕ → Outcome
  keno : List ℕ → List ℕ → ℕ → Outcome

pub record RoundResult : Type 0 where
  pub won : Bool
  pub multiplier : Number
  pub outcome : Outcome

-- `none` is `null`: roll honestly.
abbrev pub ForcedResult : Type 0
ForcedResult = Option Bool

pub record SeedContext : Type 0 where
  pub server_seed : String
  pub client_seed : String
  pub nonce : ℕ

-- ===== src/Tests/WalletRuns.antt =====
-- The wallet's theorems at a small store: a player with 100.00, a session of Mines and one of
-- Towers, and an open round in each.
use crispy_enigma.Base.{◌<◌, keep, ◌≡◌, refl, ℕ, zero, suc, [], ◌∷◌, true, false, none, some, arith}
use crispy_enigma.Base.Int.{pos, ◌+ℤ◌}
use crispy_enigma.Number.{Number, nan, whole, mul, decimal, is_finite, round, div, decimal_ℤ}
use crispy_enigma.Contracts.{GameSlug, Difficulty, Selection, Outcome}
use crispy_enigma.Engine.Validate.{Fields, Json, Conversions}
use crispy_enigma.Engine.Towers.{Power, towers_config}
use crispy_enigma.Wallet.Money.{cents, from_cents, from_ten_thousandths, round_money}
use crispy_enigma.Wallet.Reply.{ok, fail, plain, validation}
use crispy_enigma.Wallet.Store.{get_or_create, Wallet, Game, Session, Bet, BetStatus, Store}
use crispy_enigma.Wallet.Sessions.{is_open_session_of, new_session, start_session}
use crispy_enigma.Wallet.OnlySession.{start_session_only}
use crispy_enigma.Wallet.Guards.{
  parse_stake, get_playable_game, require_open_session, check_found, same_slug,
}
use crispy_enigma.Wallet.Writes.{writes}
use crispy_enigma.Wallet.Bets.{Draws, find_open_bet, balance_of, pay}
use crispy_enigma.Wallet.Funds.{funds}
use crispy_enigma.Wallet.Interleaved.{winnings, pay_mines_twice}
use crispy_enigma.Wallet.OpenBets.{place_bet-IsOneEach}
use crispy_enigma.Wallet.WholeCents.{parse_stake-from_cents}
use crispy_enigma.Wallet.Instant.{place_bet}
use crispy_enigma.Wallet.Atomic.{
  Leaves, place_bet-Leaves, start_mines-Leaves, start_towers-Leaves, cash_out_mines-Leaves,
}
use crispy_enigma.Wallet.Starts.{start_mines-funds, start_towers-funds}
use crispy_enigma.Wallet.Solvency.{IsSolvent, start_mines-IsSolvent, start_towers-IsSolvent}
use crispy_enigma.Wallet.OpenRounds.{IsOneEach, start_mines-IsOneEach, start_towers-IsOneEach}
use crispy_enigma.Wallet.Mines.{MinesRoundState, start_mines}
use crispy_enigma.Wallet.Mines.Reveal.{pay_mines, cash_out_mines}
use crispy_enigma.Wallet.Mines.Once.{cash_out_mines_once}
use crispy_enigma.Wallet.Towers.{TowersRoundState, start_towers}
use crispy_enigma.Wallet.Towers.Reveal.{settled_state, pay_towers, cash_out_towers}
use crispy_enigma.Wallet.Towers.Once.{cash_out_towers_once}
use crispy_enigma.Tests.EngineRuns.{digest}

abbrev pub powers : Power
powers x zero = whole 1
powers x (suc n) = mul (powers x n) x

-- No text and no object stands for a number here.
abbrev pub conversions : Conversions
conversions = record { of_text = λ s. nan; of_object = λ j. nan }

abbrev pub draws : Draws
draws = record {
  now = 50;
  bet_id = 7;
  bet_reference = 70;
  stake_reference = 71;
  payout_reference = 72;
  server_seed = "server";
  server_seed_hash = "hash";
  client_seed = "client";
  rejects = λ statement. false;
}

abbrev player : Wallet
player = record {
  user = 1;
  balance = pos 10_000;
  bonus_balance = pos 0;
  locked_balance = pos 1_000;
  total_wagered = pos 1_000;
  total_won = pos 0;
  total_deposited = pos 11_000;
  is_locked = false;
  difficulties = record { difficulty = none; game_difficulties = λ slug. none };
}

abbrev game : ℕ → GameSlug → Game
game id slug = record {
  id = id;
  slug = slug;
  is_active = true;
  under_maintenance = false;
  min_bet = whole 1;
  max_bet = whole 1_000;
  house_edge = decimal 2 100;
  max_multiplier = whole 100;
  difficulty = whole 0;
}

abbrev session : ℕ → ℕ → Session
session id of_game = record {
  id = id;
  user = 1;
  game = of_game;
  bet_count = 1;
  total_staked = pos 500;
  total_won = pos 0;
  started_at = 10;
  ended_at = none;
}

-- A round of 5.00 that stands at 1.04.
abbrev open_bet : ℕ → ℕ → Selection → Outcome → Bet
open_bet id of_game selection outcome = record {
  id = id;
  user = 1;
  game = of_game;
  session = of_game;
  reference = id;
  stake = pos 500;
  multiplier = pos 10_400;
  payout = pos 0;
  status = BetStatus.«open»;
  selection = selection;
  outcome = outcome;
  server_seed = "server";
  server_seed_hash = "hash";
  client_seed = "client";
  nonce = 1;
  was_controlled = false;
  settled_at = none;
}

abbrev mines_round : Bet
mines_round = open_bet 5 2 (Selection.mines 1) (Outcome.mines (3 ∷ []) (9 ∷ []))

abbrev towers_round : Bet
towers_round =
    open_bet 6 3 (Selection.towers Difficulty.hard) (Outcome.towers ((0 ∷ []) ∷ []) (1 ∷ []))

abbrev pub db : Store
db = record {
  wallets = player ∷ [];
  games = game 2 GameSlug.mines ∷ game 3 GameSlug.towers ∷ game 4 GameSlug.coin_flip ∷ [];
  sessions = session 2 2 ∷ session 3 3 ∷ session 4 4 ∷ [];
  bets = mines_round ∷ towers_round ∷ [];
  transactions = [];
  deposits = [];
  excluded = [];
  controls = [];
}

abbrev hard_text : Json
hard_text = Json.text "hard"

-- The same without open rounds.
abbrev pub fresh : Store
fresh = record db { bets = [] }

start_mines-funds_example :
    funds (start_mines digest conversions draws 1 2 (whole 5) (whole 3) fresh).1.wallets
    ≡ funds fresh.wallets
start_mines-funds_example = start_mines-funds digest conversions draws 1 2 (whole 5) (whole 3) fresh

start_towers-funds_example :
    funds (start_towers digest powers conversions draws 1 3 (whole 5) hard_text fresh).1.wallets
    ≡ funds fresh.wallets
start_towers-funds_example =
    start_towers-funds digest conversions draws 1 3 powers (whole 5) hard_text fresh

pub db-IsSolvent : IsSolvent db
db-IsSolvent = (omega arith, tt)

start_mines-IsSolvent_example :
    IsSolvent (start_mines digest conversions draws 1 2 (whole 5) (whole 3) db).1
start_mines-IsSolvent_example =
    start_mines-IsSolvent digest conversions draws 1 2 (whole 5) (whole 3) db db-IsSolvent

start_towers-IsSolvent_example :
    IsSolvent (start_towers digest powers conversions draws 1 3 (whole 5) hard_text db).1
start_towers-IsSolvent_example =
    start_towers-IsSolvent digest conversions draws 1 3 powers (whole 5) hard_text db db-IsSolvent

db-IsOneEach : IsOneEach db
db-IsOneEach user of_game = ground arith

start_mines-IsOneEach_example :
    IsOneEach (start_mines digest conversions draws 1 2 (whole 5) (whole 3) db).1
start_mines-IsOneEach_example =
    start_mines-IsOneEach digest conversions draws 1 2 (whole 5) (whole 3) db db-IsOneEach

start_towers-IsOneEach_example :
    IsOneEach (start_towers digest powers conversions draws 1 3 (whole 5) hard_text db).1
start_towers-IsOneEach_example =
    start_towers-IsOneEach digest conversions draws 1 3 powers (whole 5) hard_text db db-IsOneEach

-- What both rounds pay.
abbrev win : Number
win = round_money (mul (from_cents (pos 500)) (from_ten_thousandths (pos 10_400)))

win_finite : is_finite win ≡ true
unfolding round_money from_cents from_ten_thousandths mul div round whole decimal_ℤ
win_finite = refl

abbrev paid_mines : MinesRoundState
paid_mines = record {
  reference = 5;
  session = 2;
  mine_count = 1;
  revealed = 9 ∷ [];
  multiplier = from_ten_thousandths (pos 10_400);
  next_multiplier = whole 0;
  status = BetStatus.cashed_out;
  mine_positions = some (3 ∷ []);
  payout = some win;
  balance = some (from_cents (pay (cents win) (cents (from_cents (pos 500))) player).balance);
}

db-paid_mines : (cash_out_mines draws 1 2 5 db).0 ≡ ok paid_mines
unfolding cash_out_mines require_open_session check_found same_slug find_open_bet pay_mines pay
    writes
db-paid_mines = rw win_finite refl

cash_out_mines_once_example :
    let after = (cash_out_mines draws 1 2 5 db).1 in
    cash_out_mines draws 1 2 5 after ≡ (fail (plain "Round already finished") validation, after)
cash_out_mines_once_example = cash_out_mines_once draws draws 1 2 5 db paid_mines db-paid_mines

abbrev paid_towers : TowersRoundState
paid_towers = record {
  reference = 6;
  session = 3;
  difficulty = Difficulty.hard;
  tiles = (towers_config Difficulty.hard).tiles;
  rows = (towers_config Difficulty.hard).rows;
  picks = 1 ∷ [];
  multiplier = from_ten_thousandths (pos 10_400);
  next_multiplier = whole 0;
  status = BetStatus.cashed_out;
  traps = some ((0 ∷ []) ∷ []);
  payout = some win;
  balance = some (from_cents (pay (cents win) (cents (from_cents (pos 500))) player).balance);
}

db-paid_towers : (cash_out_towers draws 1 3 6 db).0 ≡ ok paid_towers
unfolding cash_out_towers require_open_session check_found same_slug find_open_bet pay_towers
    settled_state pay writes
db-paid_towers = rw win_finite refl

cash_out_towers_once_example :
    let after = (cash_out_towers draws 1 3 6 db).1 in
    cash_out_towers draws 1 3 6 after ≡ (fail (plain "Round already finished") validation, after)
cash_out_towers_once_example = cash_out_towers_once draws draws 1 3 6 db paid_towers db-paid_towers

mines_playable : get_playable_game 1 GameSlug.mines db ≡ ok (game 2 GameSlug.mines)
unfolding get_playable_game same_slug
mines_playable = refl

start_session_only_example :
    keep (is_open_session_of 1 2) (start_session 60 9 1 GameSlug.mines db).1.sessions
    ≡ new_session 60 9 1 2 ∷ []
start_session_only_example =
    start_session_only 60 9 1 GameSlug.mines db (game 2 GameSlug.mines) mines_playable

abbrev pub heads_pick : Json
heads_pick = Json.obj (Fields.field "side" (Json.text "heads") Fields.end)

-- A bet of 200.00 with 100.00.
place_bet-Leaves_example :
    Leaves draws.rejects db
      (get_or_create 1 db).1
      (place_bet digest conversions draws 1 4 GameSlug.coin_flip (whole 200) heads_pick db)
place_bet-Leaves_example =
    place_bet-Leaves digest conversions draws 1 4 GameSlug.coin_flip (whole 200) heads_pick db

start_mines-Leaves_example :
    Leaves draws.rejects db
      (get_or_create 1 db).1
      (start_mines digest conversions draws 1 2 (whole 5) (whole 3) db)
start_mines-Leaves_example = start_mines-Leaves digest conversions draws 1 2 (whole 5) (whole 3) db

start_towers-Leaves_example :
    Leaves draws.rejects db
      (get_or_create 1 db).1
      (start_towers digest powers conversions draws 1 3 (whole 5) hard_text db)
start_towers-Leaves_example =
    start_towers-Leaves digest conversions draws 1 3 powers (whole 5) hard_text db

cash_out_mines-Leaves_example : Leaves draws.rejects fresh fresh (cash_out_mines draws 1 2 5 fresh)
cash_out_mines-Leaves_example = cash_out_mines-Leaves draws 1 2 5 fresh

place_bet-IsOneEach_example :
    IsOneEach (place_bet digest conversions draws 1 4 GameSlug.coin_flip (whole 5) heads_pick db).1
place_bet-IsOneEach_example =
    place_bet-IsOneEach digest conversions draws 1 4 GameSlug.coin_flip (whole 5) heads_pick db
      db-IsOneEach

five_accepted : parse_stake (whole 5) (whole 1) (whole 1_000) ≡ ok (round_money (whole 5))
unfolding parse_stake round_money mul div round whole
five_accepted = refl

parse_stake-from_cents_example : (k : ℕ) × (0 < k) × (round_money (whole 5) ≡ from_cents (pos k))
parse_stake-from_cents_example =
    parse_stake-from_cents (whole 5) (whole 1) (whole 1_000) (round_money (whole 5)) five_accepted

mines_found : find_open_bet 1 2 5 db ≡ ok mines_round
unfolding find_open_bet
mines_found = refl

pay_mines_twice_example :
    let after = (cash_out_mines draws 1 2 5 db).1 in
    balance_of 1 (pay_mines draws 1 2 5 mines_round (winnings mines_round) after).1
    ≡ some (pos 10_000 +ℤ cents (winnings mines_round) +ℤ cents (winnings mines_round))
pay_mines_twice_example =
    pay_mines_twice draws draws 1 2 5 mines_round player db paid_mines refl mines_found
      db-paid_mines

-- ===== src/Tests/SolvencyRuns.antt =====
-- The solvency of an instant bet (5.00 on heads) and of a cash-out, and a start of a Mines round whose
-- bet is rejected, at the store of Tests/WalletRuns.
use crispy_enigma.Base.{All, ◌≡◌, refl, Bool, true, false, not, arith}
use crispy_enigma.Number.{whole, lt, mul, div, round, sub, add, to_fixed}
use crispy_enigma.Contracts.{GameSlug, is_instant_game}
use crispy_enigma.Engine.Rng.{parse_hex, draw_bits, seeded_float}
use crispy_enigma.Engine.Odds.{round2, fair_multiplier}
use crispy_enigma.Engine.CoinFlip.{flip_result, resolve_coin_flip}
use crispy_enigma.Engine.Control.{
  apply_win_cap, cap_at, resolve_control, decide_forced_result, decide_from_difficulty,
  effective_difficulty, wallet_difficulty_for_game, general_difficulty, game_difficulty_or_zero,
  clamp_percent,
}
use crispy_enigma.Engine.Round.{resolve_round}
use crispy_enigma.Engine.Validate.{validate_selection, member}
use crispy_enigma.Wallet.Money.{cents, from_cents, round_money}
use crispy_enigma.Wallet.Reply.{Reply, ok, fail, thrown, ok-injective}
use crispy_enigma.Wallet.Store.{get_or_create}
use crispy_enigma.Wallet.Guards.{
  same_slug, check_found, require_open_session, parse_stake, next_nonce, get_control_row,
}
use crispy_enigma.Wallet.RuleWrites.{rule_writes}
use crispy_enigma.Wallet.Writes.{Statement, writes}
use crispy_enigma.Wallet.Bets.{Draws, debit}
use crispy_enigma.Wallet.Solvency.{IsSolvent}
use crispy_enigma.Wallet.CashOutSolvency.{IsUnsigned, cash_out_mines-IsSolvent}
use crispy_enigma.Wallet.Mines.Reveal.{cash_out_mines}
use crispy_enigma.Wallet.BetSolvency.{IsPayout, unrejected, place_bet-IsSolvent}
use crispy_enigma.Wallet.Instant.{
  SettledBet, control_of, rolled, payout_of, write_bet, place_bet_with, place_bet,
}
use crispy_enigma.Tests.EngineRuns.{digest}
use crispy_enigma.Tests.WalletRuns.{db, conversions, draws, heads_pick, db-IsSolvent}

abbrev run : Reply SettledBet
run =
    (place_bet digest conversions (unrejected draws) 1 4 GameSlug.coin_flip (whole 5) heads_pick
      db).0

abbrev tells_no_debt : Reply SettledBet → Bool
tells_no_debt (ok bet) = not (lt bet.payout (whole 0))
tells_no_debt reply = true

run_fine : tells_no_debt run ≡ true
unfolding place_bet is_instant_game require_open_session check_found same_slug validate_selection
    member parse_stake round_money mul div round whole place_bet_with get_or_create rolled
    resolve_round resolve_coin_flip flip_result seeded_float draw_bits parse_hex fair_multiplier
    round2 control_of apply_win_cap cap_at get_control_row next_nonce write_bet payout_of debit
    cents from_cents sub add resolve_control decide_forced_result decide_from_difficulty
    effective_difficulty wallet_difficulty_for_game general_difficulty game_difficulty_or_zero
    clamp_percent to_fixed writes rule_writes
run_fine = refl

run-IsPayout : (reply : Reply SettledBet) → tells_no_debt reply ≡ true → IsPayout reply
run-IsPayout (ok told) h bet e = rw (← ok-injective told bet e) (ground (arith, h))
run-IsPayout (fail message code) h bet e = cc
run-IsPayout thrown h bet e = cc

place_bet-IsSolvent_example :
    IsSolvent (place_bet digest conversions draws 1 4 GameSlug.coin_flip (whole 5) heads_pick db).1
place_bet-IsSolvent_example =
    place_bet-IsSolvent digest conversions draws 1 4 GameSlug.coin_flip (whole 5) heads_pick db
      db-IsSolvent (run-IsPayout run run_fine)

db-IsUnsigned : All IsUnsigned db.bets
db-IsUnsigned = ((omega arith, omega arith), ((omega arith, omega arith), tt))

cash_out_mines-IsSolvent_example : IsSolvent (cash_out_mines draws 1 2 5 db).1
cash_out_mines-IsSolvent_example =
    cash_out_mines-IsSolvent draws 1 2 5 db db-IsUnsigned db-IsSolvent

-- The database takes all statements but the insert of a bet.
abbrev is_bet_insert : Statement → Bool
is_bet_insert Statement.bet_insert = true
is_bet_insert statement = false

abbrev cut_draws : Draws
cut_draws = record draws { rejects = is_bet_insert }

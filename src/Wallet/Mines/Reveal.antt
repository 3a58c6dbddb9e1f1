-- ===== src/Wallet/Mines/Reveal.antt =====
-- `revealMines`, `cashOutMines` and `getOpenMines` of libs/wallet/src/play.service.ts.
use crispy_enigma.Base.{
  ℕ, ◌+◌, [], ◌∷◌, ◌++◌, not, ◌||◌, if◌then◌else◌, Option, none, some, ◌==◌, length, includes, leb,
}
use crispy_enigma.Number.{Number, whole, mul, lt, le, is_finite, is_integer, to_ℕ}
use crispy_enigma.Contracts.{GameSlug, Outcome}
use crispy_enigma.Engine.Mines.{mines_tile_count, mines_multiplier}
use crispy_enigma.Wallet.Money.{
  round_money, cents, ten_thousandths, from_cents, from_ten_thousandths,
}
use crispy_enigma.Wallet.Reply.{Reply, ok, fail, thrown, plain, validation, and_then}
use crispy_enigma.Wallet.Writes.{Statement, writes}
use crispy_enigma.Wallet.Store.{Bet, BetStatus, Store}
use crispy_enigma.Wallet.Guards.{require_open_session}
use crispy_enigma.Wallet.Bets.{
  Draws, or_zero, balance_of, release, pay, change_wallet, change_bet, insert_transactions,
  payout_row, bump_session, find_open_bet, open_round_of, lose_bet, cash_out_bet,
}
use crispy_enigma.Wallet.Mines.{MinesRoundState, mines_of, revealed_of, mines_state}

module _ (draws : Draws) where
  -- The end of a cash-out, from the update of the wallet on. An infinite amount is refused by the
  -- column's type, which throws.
  unfoldable pub pay_mines : ℕ → ℕ → ℕ → Bet → Number → Store → Reply MinesRoundState × Store
  pay_mines user session_id bet_reference bet payout db =
      if not (is_finite payout)
      then (thrown, db)
      else let paid = change_wallet user (pay (cents payout) (cents (from_cents bet.stake))) db in
        let balance = balance_of user paid in
        writes draws.rejects
          ((Statement.bet_close, change_bet bet.id (cash_out_bet (cents payout) draws.now))
            ∷ (
              Statement.ledger_insert,
              insert_transactions (payout_row user payout balance bet_reference draws ∷ []),
            )
            ∷ (Statement.session_update, bump_session session_id (whole 0) payout)
            ∷ [])
          (ok (record {
            reference = bet_reference;
            session = session_id;
            mine_count = length (mines_of bet.outcome);
            revealed = revealed_of bet.outcome;
            multiplier = from_ten_thousandths bet.multiplier;
            next_multiplier = whole 0;
            status = BetStatus.cashed_out;
            mine_positions = some (mines_of bet.outcome);
            payout = some payout;
            balance = some (from_cents (or_zero balance));
          }))
          paid

  unfoldable pub cash_out_mines : ℕ → ℕ → ℕ → Store → Reply MinesRoundState × Store
  cash_out_mines user session_id bet_reference db =
      and_then (require_open_session user session_id GameSlug.mines db) db λ (session, game).
        and_then (find_open_bet user session_id bet_reference db) db λ bet.
          if length (revealed_of bet.outcome) == 0
          then (fail (plain "Reveal at least one tile first") validation, db)
          else pay_mines user session_id bet_reference bet
              (round_money (mul (from_cents bet.stake) (from_ten_thousandths bet.multiplier))) db

  -- A tile with a mine: the round is lost.
  unfoldable pub lose_mines : ℕ → ℕ → ℕ → Bet → ℕ → Store → Reply MinesRoundState × Store
  lose_mines user session_id bet_reference bet tile db =
      let mine_positions = mines_of bet.outcome in
      let revealed = revealed_of bet.outcome ++ (tile ∷ []) in
      writes draws.rejects
        ((
          Statement.bet_close,
          change_bet bet.id (lose_bet (Outcome.mines mine_positions revealed) draws.now),
        )
          ∷ [])
        (ok (record {
          reference = bet_reference;
          session = session_id;
          mine_count = length mine_positions;
          revealed = revealed;
          multiplier = whole 0;
          next_multiplier = whole 0;
          status = BetStatus.lost;
          mine_positions = some mine_positions;
          payout = some (whole 0);
          balance = none;
        }))
        (change_wallet user (release (cents (from_cents bet.stake))) db)

  -- A safe tile: the last one cashes out.
  unfoldable pub pass_mines : ℕ → ℕ → ℕ → Number → Bet → ℕ → Store → Reply MinesRoundState × Store
  pass_mines user session_id bet_reference house_edge bet tile db =
      let mine_positions = mines_of bet.outcome in
      let mine_count = length mine_positions in
      let revealed = revealed_of bet.outcome ++ (tile ∷ []) in
      let multiplier = mines_multiplier mine_count (length revealed) house_edge in
      if draws.rejects Statement.bet_mark || not (is_finite multiplier)
      then (thrown, db)
      else let marked =
          change_bet bet.id
            (λ b. record b {
              multiplier = ten_thousandths multiplier;
              outcome = Outcome.mines mine_positions revealed;
            })
            db in
        if leb mines_tile_count (mine_count + length revealed)
        then cash_out_mines user session_id bet_reference marked
        else (
          ok (mines_state bet_reference session_id mine_count revealed multiplier house_edge),
          marked,
        )

  unfoldable pub reveal_bet : ℕ → ℕ → ℕ → Number → Bet → ℕ → Store → Reply MinesRoundState × Store
  reveal_bet user session_id bet_reference house_edge bet tile db =
      if includes (revealed_of bet.outcome) tile
      then (fail (plain "Tile already revealed") validation, db)
      else if includes (mines_of bet.outcome) tile
      then lose_mines user session_id bet_reference bet tile db
      else pass_mines user session_id bet_reference house_edge bet tile db

  unfoldable pub reveal_mines : ℕ → ℕ → ℕ → Number → Store → Reply MinesRoundState × Store
  reveal_mines user session_id bet_reference tile db =
      if not (is_integer tile) || lt tile (whole 0) || le (whole mines_tile_count) tile
      then (fail (plain "Invalid tile") validation, db)
      else and_then (require_open_session user session_id GameSlug.mines db) db λ (session, game).
        and_then (find_open_bet user session_id bet_reference db) db
          λ bet. reveal_bet user session_id bet_reference game.house_edge bet (to_ℕ tile) db

unfoldable pub shown_mines : ℕ → Number → Option Bet → Option MinesRoundState
shown_mines session_id house_edge none = none
shown_mines session_id house_edge (some bet) =
    let mine_count = length (mines_of bet.outcome) in
    let revealed = revealed_of bet.outcome in
    some (
      mines_state bet.reference session_id mine_count revealed
        (mines_multiplier mine_count (length revealed) house_edge) house_edge)

unfoldable pub get_open_mines : ℕ → ℕ → Store → Reply (Option MinesRoundState)
get_open_mines user session_id db = elim (require_open_session user session_id GameSlug.mines db) [
  | fail message code ↦ fail message code
  | thrown ↦ thrown
  | ok (session, game) ↦
      ok (shown_mines session_id game.house_edge (open_round_of user game.id session_id db))
]

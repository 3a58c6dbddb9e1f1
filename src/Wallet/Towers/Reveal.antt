-- ===== src/Wallet/Towers/Reveal.antt =====
-- `revealTowers`, `cashOutTowers` and `getOpenTowers` of libs/wallet/src/play.service.ts.
use crispy_enigma.Base.{
  ℕ, List, [], ◌∷◌, ◌++◌, not, ◌||◌, if◌then◌else◌, Option, none, some, ◌==◌, length, includes,
  get_or, leb,
}
use crispy_enigma.Number.{Number, whole, mul, lt, le, is_finite, is_integer, to_ℕ}
use crispy_enigma.Contracts.{GameSlug, Outcome, Difficulty}
use crispy_enigma.Engine.Towers.{Power, towers_config, towers_multiplier}
use crispy_enigma.Wallet.Money.{
  round_money, cents, ten_thousandths, from_cents, from_ten_thousandths,
}
use crispy_enigma.Wallet.Reply.{Reply, ok, fail, thrown, plain, validation, and_then}
use crispy_enigma.Wallet.Writes.{Statement, writes}
use crispy_enigma.Wallet.Store.{Bet, BetStatus, Store}
use crispy_enigma.Wallet.Guards.{require_open_session}
use crispy_enigma.Wallet.Bets.{
  Draws, or_zero, balance_of, release, pay, change_wallet, change_bet, insert_transactions,
  payout_row, bump_session, find_open_bet, open_round_of, or_zero, lose_bet, cash_out_bet,
}
use crispy_enigma.Wallet.Towers.{
  TowersRoundState, traps_of, picks_of, difficulty_of, or_thrown, towers_state,
}

-- What a settled round tells the player; without a difficulty, reading the config's fields throws.
unfoldable pub settled_state :
    ℕ
    → ℕ
    → Option Difficulty
    → List ℕ
    → Number
    → BetStatus
    → List (List ℕ)
    → Number
    → Option Number
    → Reply TowersRoundState
settled_state reference session_id none picks multiplier status traps payout balance = thrown
settled_state reference session_id (some difficulty) picks multiplier status traps payout balance =
    ok (record {
      reference = reference;
      session = session_id;
      difficulty = difficulty;
      tiles = (towers_config difficulty).tiles;
      rows = (towers_config difficulty).rows;
      picks = picks;
      multiplier = multiplier;
      next_multiplier = whole 0;
      status = status;
      traps = some traps;
      payout = some payout;
      balance = balance;
    })

module _ (draws : Draws) where
  -- The end of a cash-out, from the update of the wallet on. An infinite amount is refused by the
  -- column's type, which throws.
  unfoldable pub pay_towers : ℕ → ℕ → ℕ → Bet → Number → Store → Reply TowersRoundState × Store
  pay_towers user session_id bet_reference bet payout db =
      if not (is_finite payout)
      then (thrown, db)
      else let paid = change_wallet user (pay (cents payout) (cents (from_cents bet.stake))) db in
        let balance = balance_of user paid in
        writes draws.rejects
          ((Statement.bet_close, change_bet bet.id (cash_out_bet (cents payout) draws.now))
            ∷ (
              Statement.ledger_insert,
              insert_transactions (payout_row user payout balance bet_reference draws ∷ []),
            )
            ∷ (Statement.session_update, bump_session session_id (whole 0) payout)
            ∷ [])
          (settled_state bet_reference session_id (difficulty_of bet.selection)
            (picks_of bet.outcome) (from_ten_thousandths bet.multiplier) BetStatus.cashed_out
            (traps_of bet.outcome) payout (some (from_cents (or_zero balance))))
          paid

  unfoldable pub cash_out_towers : ℕ → ℕ → ℕ → Store → Reply TowersRoundState × Store
  cash_out_towers user session_id bet_reference db =
      and_then (require_open_session user session_id GameSlug.towers db) db λ (session, game).
        and_then (find_open_bet user session_id bet_reference db) db λ bet.
          if length (picks_of bet.outcome) == 0
          then (fail (plain "Climb at least one floor first") validation, db)
          else pay_towers user session_id bet_reference bet
              (round_money (mul (from_cents bet.stake) (from_ten_thousandths bet.multiplier))) db

  -- A tile with a trap: the round is lost.
  unfoldable pub lose_towers : ℕ → ℕ → ℕ → Bet → ℕ → Store → Reply TowersRoundState × Store
  lose_towers user session_id bet_reference bet tile db =
      let traps = traps_of bet.outcome in
      let picks = picks_of bet.outcome ++ (tile ∷ []) in
      writes draws.rejects
        ((Statement.bet_close, change_bet bet.id (lose_bet (Outcome.towers traps picks) draws.now))
          ∷ [])
        (settled_state bet_reference session_id (difficulty_of bet.selection) picks (whole 0)
          BetStatus.lost traps (whole 0) none)
        (change_wallet user (release (cents (from_cents bet.stake))) db)

module _ (power : Power) (draws : Draws) where
  -- A safe tile: the top floor cashes out.
  unfoldable pub pass_towers :
      ℕ → ℕ → ℕ → Number → Bet → Difficulty → ℕ → Store → Reply TowersRoundState × Store
  pass_towers user session_id bet_reference house_edge bet difficulty tile db =
      let traps = traps_of bet.outcome in
      let picks = picks_of bet.outcome ++ (tile ∷ []) in
      let multiplier = towers_multiplier power difficulty (length picks) house_edge in
      if draws.rejects Statement.bet_mark || not (is_finite multiplier)
      then (thrown, db)
      else let marked =
          change_bet bet.id
            (λ b. record b {
              multiplier = ten_thousandths multiplier;
              outcome = Outcome.towers traps picks;
            })
            db in
        if leb (towers_config difficulty).rows (length picks)
        then cash_out_towers draws user session_id bet_reference marked
        else (
          ok (towers_state power bet_reference session_id difficulty picks multiplier house_edge),
          marked,
        )

  unfoldable pub climb :
      ℕ → ℕ → ℕ → Number → Bet → Difficulty → Number → Store → Reply TowersRoundState × Store
  climb user session_id bet_reference house_edge bet difficulty tile db =
      let row = length (picks_of bet.outcome) in
      if not (is_integer tile)
        || lt tile (whole 0)
        || le (whole (towers_config difficulty).tiles) tile
      then (fail (plain "Invalid tile") validation, db)
      else if leb (towers_config difficulty).rows row
      then (fail (plain "Tower is already clear") validation, db)
      else if includes (get_or (traps_of bet.outcome) row []) (to_ℕ tile)
      then lose_towers draws user session_id bet_reference bet (to_ℕ tile) db
      else pass_towers user session_id bet_reference house_edge bet difficulty (to_ℕ tile) db

  unfoldable pub reveal_towers : ℕ → ℕ → ℕ → Number → Store → Reply TowersRoundState × Store
  reveal_towers user session_id bet_reference tile db =
      and_then (require_open_session user session_id GameSlug.towers db) db λ (session, game).
        and_then (find_open_bet user session_id bet_reference db) db λ bet.
          and_then (or_thrown (difficulty_of bet.selection)) db
            λ difficulty. climb user session_id bet_reference game.house_edge bet difficulty tile db

module _ (power : Power) where
  unfoldable pub shown_towers : ℕ → Number → Option Bet → Reply (Option TowersRoundState)
  shown_towers session_id house_edge none = ok none
  shown_towers session_id house_edge (some bet) = elim (difficulty_of bet.selection) [
    | none ↦ thrown
    | some difficulty ↦
        let picks = picks_of bet.outcome in
        ok (
          some (
            towers_state power bet.reference session_id difficulty picks
              (towers_multiplier power difficulty (length picks) house_edge) house_edge))
  ]

  unfoldable pub get_open_towers : ℕ → ℕ → Store → Reply (Option TowersRoundState)
  get_open_towers user session_id db =
      elim (require_open_session user session_id GameSlug.towers db) [
        | fail message code ↦ fail message code
        | thrown ↦ thrown
        | ok (session, game) ↦
            shown_towers session_id game.house_edge (open_round_of user game.id session_id db)
      ]

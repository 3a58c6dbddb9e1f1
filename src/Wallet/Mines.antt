-- ===== src/Wallet/Mines.antt =====
-- `startMines` of libs/wallet/src/play.service.ts.
pub mod Reveal
pub mod Once
use crispy_enigma.Base.{
  ℕ, ◌+◌, ◌-◌, List, [], ◌∷◌, ◌++◌, Bool, true, false, not, ◌&&◌, ◌||◌, if◌then◌else◌, Option, none,
  some, ◌==◌, length, includes, leb,
}
use crispy_enigma.Base.Int.{ℤ, pos}
use crispy_enigma.Number.{Number, whole, mul, lt, le, is_finite, is_integer, to_ℕ}
use crispy_enigma.Contracts.{GameSlug, Selection, Outcome, ForcedResult}
use crispy_enigma.Engine.Rng.{Hmac}
use crispy_enigma.Engine.Mines.{mines_tile_count, mines_multiplier, build_mines_grid}
use crispy_enigma.Engine.Control.{resolve_control, wallet_difficulty_for_game}
use crispy_enigma.Engine.Validate.{
  Json, num, obj, end, field, Conversions, Validated, valid, invalid, validate_selection,
}
use crispy_enigma.Wallet.Money.{
  round_money, cents, ten_thousandths, from_cents, from_ten_thousandths,
}
use crispy_enigma.Wallet.Reply.{
  Reply, ok, fail, thrown, plain, validation, unavailable, insufficient, and_then,
}
use crispy_enigma.Wallet.Writes.{Statement, writes}
use crispy_enigma.Wallet.Store.{
  Wallet, Game, Session, Bet, BetStatus, Store, first_where, get_or_create,
}
use crispy_enigma.Wallet.Guards.{
  require_open_session, parse_stake, next_nonce, get_control_row, row_rule,
}
use crispy_enigma.Wallet.Bets.{
  Draws, seeds_of, was_forced, or_zero, balance_of, debit, hold, release, pay, change_wallet,
  change_bet, insert_bet, insert_transactions, stake_row, payout_row, bump_session, find_open_bet,
  has_open_bet, lose_bet, cash_out_bet,
}

-- `MinesRoundState`; an absent field is `none`.
pub record MinesRoundState : Type 0 where
  pub reference : ℕ
  pub session : ℕ
  pub mine_count : ℕ
  pub revealed : List ℕ
  pub multiplier : Number
  pub next_multiplier : Number
  pub status : BetStatus
  pub mine_positions : Option (List ℕ)
  pub payout : Option Number
  pub balance : Option Number

-- `outcome.minePositions ?? []` and `outcome.revealed ?? []`
abbrev pub mines_of : Outcome → List ℕ
mines_of (Outcome.mines mine_positions revealed) = mine_positions
mines_of outcome = []

abbrev pub revealed_of : Outcome → List ℕ
revealed_of (Outcome.mines mine_positions revealed) = revealed
revealed_of outcome = []

-- `validateSelection("mines", { mineCount })`, and the mine count of its value.
unfoldable pub validated_mines : Conversions → Number → Reply ℕ
validated_mines conv mine_count =
    elim (validate_selection conv GameSlug.mines (obj (field "mineCount" (num mine_count) end))) [
      | invalid error ↦ fail (plain error) validation
      | valid selection ↦ elim selection [
        | Selection.mines n ↦ ok n
        | Selection.dice _ ↦ thrown
        | Selection.coin_flip _ ↦ thrown
        | Selection.limbo _ ↦ thrown
        | Selection.wheel _ ↦ thrown
        | Selection.plinko _ ↦ thrown
        | Selection.towers _ ↦ thrown
        | Selection.keno _ ↦ thrown
      ]
    ]

-- The state of a round that goes on.
unfoldable pub mines_state : ℕ → ℕ → ℕ → List ℕ → Number → Number → MinesRoundState
mines_state reference session_id mine_count revealed multiplier house_edge = record {
  reference = reference;
  session = session_id;
  mine_count = mine_count;
  revealed = revealed;
  multiplier = multiplier;
  next_multiplier = mines_multiplier mine_count (length revealed + 1) house_edge;
  status = BetStatus.«open»;
  mine_positions = none;
  payout = none;
  balance = none;
}

module _ (hmac : Hmac) (conv : Conversions) (draws : Draws) where
  -- The bet of a new round.
  unfoldable pub mines_bet : ℕ → ℕ → Game → Number → ℕ → Wallet → Store → Bet
  mines_bet user session_id game stake mine_count wallet db =
      let nonce = next_nonce user db in
      let seeds = seeds_of draws nonce in
      let forced =
        resolve_control hmac (row_rule (get_control_row user game.id db))
          (wallet_difficulty_for_game wallet.difficulties GameSlug.mines) game.difficulty seeds in
      record {
        id = draws.bet_id;
        user = user;
        game = game.id;
        session = session_id;
        reference = draws.bet_reference;
        stake = cents stake;
        multiplier = pos 0;
        payout = pos 0;
        status = BetStatus.«open»;
        selection = Selection.mines mine_count;
        outcome = Outcome.mines (build_mines_grid hmac mine_count seeds forced) [];
        server_seed = draws.server_seed;
        server_seed_hash = draws.server_seed_hash;
        client_seed = draws.client_seed;
        nonce = nonce;
        was_controlled = was_forced forced;
        settled_at = none;
      }

  -- From the debit on.
  unfoldable pub open_mines :
      ℕ → ℕ → Game → Number → ℕ → Wallet → Store → Reply MinesRoundState × Store
  open_mines user session_id game stake mine_count wallet db =
      elim (debit user (cents stake) (hold (cents stake)) db) [
        | none ↦ (fail (plain "Insufficient balance") insufficient, db)
        | some held ↦
            writes draws.rejects
              ((
                Statement.bet_insert,
                insert_bet (mines_bet user session_id game stake mine_count wallet db),
              )
                ∷ (Statement.ledger_insert, insert_transactions (stake_row user stake draws ∷ []))
                ∷ (Statement.session_update, bump_session session_id stake (whole 0))
                ∷ [])
              (ok (
                mines_state draws.bet_reference session_id mine_count [] (whole 0) game.house_edge))
              held
      ]

  unfoldable pub start_mines_with :
      ℕ → ℕ → Game → Number → ℕ → Store → Reply MinesRoundState × Store
  start_mines_with user session_id game stake mine_count db =
      if has_open_bet user game.id db
      then (fail (plain "You already have a Mines round in progress") validation, db)
      else let (wallet, db1) = get_or_create user db in
        if wallet.is_locked
        then (fail (plain "Your wallet is locked. Contact support.") unavailable, db1)
        else open_mines user session_id game stake mine_count wallet db1

  unfoldable pub start_mines : ℕ → ℕ → Number → Number → Store → Reply MinesRoundState × Store
  start_mines user session_id stake_input mine_count_input db =
      and_then (require_open_session user session_id GameSlug.mines db) db λ (session, game).
        and_then (validated_mines conv mine_count_input) db λ mine_count.
          and_then (parse_stake stake_input game.min_bet game.max_bet) db
            λ stake. start_mines_with user session_id game stake mine_count db

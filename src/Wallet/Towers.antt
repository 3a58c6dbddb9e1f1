-- ===== src/Wallet/Towers.antt =====
-- `startTowers` of libs/wallet/src/play.service.ts.
pub mod Reveal
pub mod Once
use crispy_enigma.Base.{
  ℕ, ◌+◌, ◌-◌, List, [], ◌∷◌, ◌++◌, Bool, true, false, not, ◌&&◌, ◌||◌, if◌then◌else◌, Option, none,
  some, ◌==◌, length, includes, get_or, leb,
}
use crispy_enigma.Base.Int.{ℤ, pos}
use crispy_enigma.Number.{Number, whole, mul, lt, le, is_finite, is_integer, to_ℕ}
use crispy_enigma.Contracts.{GameSlug, Selection, Outcome, Difficulty, ForcedResult}
use crispy_enigma.Engine.Rng.{Hmac}
use crispy_enigma.Engine.Towers.{Power, towers_config, towers_multiplier, build_towers_grid}
use crispy_enigma.Engine.Control.{resolve_control, wallet_difficulty_for_game}
use crispy_enigma.Engine.Validate.{
  Json, obj, end, field, Conversions, Validated, valid, invalid, validate_selection,
}
use crispy_enigma.Wallet.Money.{
  round_money, cents, ten_thousandths, from_cents, from_ten_thousandths,
}
use crispy_enigma.Wallet.Reply.{
  Reply, ok, fail, thrown, plain, validation, unavailable, insufficient, and_then,
}
use crispy_enigma.Wallet.Writes.{Statement, writes}
use crispy_enigma.Wallet.Store.{
  Wallet, Game, Session, Bet, BetStatus, Store, first_where, get_or_create,
}
use crispy_enigma.Wallet.Guards.{
  require_open_session, parse_stake, next_nonce, get_control_row, row_rule,
}
use crispy_enigma.Wallet.Bets.{
  Draws, seeds_of, was_forced, or_zero, balance_of, debit, hold, release, pay, change_wallet,
  change_bet, insert_bet, insert_transactions, stake_row, payout_row, bump_session, find_open_bet,
  has_open_bet, lose_bet, cash_out_bet,
}

-- `TowersRoundState`; an absent field is `none`.
pub record TowersRoundState : Type 0 where
  pub reference : ℕ
  pub session : ℕ
  pub difficulty : Difficulty
  pub tiles : ℕ
  pub rows : ℕ
  pub picks : List ℕ
  pub multiplier : Number
  pub next_multiplier : Number
  pub status : BetStatus
  pub traps : Option (List (List ℕ))
  pub payout : Option Number
  pub balance : Option Number

-- `outcome.traps ?? []` and `outcome.picks ?? []`
abbrev pub traps_of : Outcome → List (List ℕ)
traps_of (Outcome.towers traps picks) = traps
traps_of outcome = []

abbrev pub picks_of : Outcome → List ℕ
picks_of (Outcome.towers traps picks) = picks
picks_of outcome = []

-- `selection.difficulty`; without one, `towersConfig` gives nothing, whose fields throw.
abbrev pub difficulty_of : Selection → Option Difficulty
difficulty_of (Selection.towers difficulty) = some difficulty
difficulty_of selection = none

abbrev pub or_thrown : Option Difficulty → Reply Difficulty
or_thrown none = thrown
or_thrown (some difficulty) = ok difficulty

-- `validateSelection("towers", { difficulty })`, and the difficulty of its value.
unfoldable pub validated_towers : Conversions → Json → Reply Difficulty
validated_towers conv difficulty =
    elim (validate_selection conv GameSlug.towers (obj (field "difficulty" difficulty end))) [
      | invalid error ↦ fail (plain error) validation
      | valid selection ↦ or_thrown (difficulty_of selection)
    ]

-- The state of a round that goes on.
unfoldable pub towers_state :
    Power → ℕ → ℕ → Difficulty → List ℕ → Number → Number → TowersRoundState
towers_state power reference session_id difficulty picks multiplier house_edge = record {
  reference = reference;
  session = session_id;
  difficulty = difficulty;
  tiles = (towers_config difficulty).tiles;
  rows = (towers_config difficulty).rows;
  picks = picks;
  multiplier = multiplier;
  next_multiplier = towers_multiplier power difficulty (length picks + 1) house_edge;
  status = BetStatus.«open»;
  traps = none;
  payout = none;
  balance = none;
}

module _ (hmac : Hmac) (power : Power) (conv : Conversions) (draws : Draws) where
  -- The bet of a new round.
  unfoldable pub towers_bet : ℕ → ℕ → Game → Number → Difficulty → Wallet → Store → Bet
  towers_bet user session_id game stake difficulty wallet db =
      let nonce = next_nonce user db in
      let seeds = seeds_of draws nonce in
      let forced =
        resolve_control hmac (row_rule (get_control_row user game.id db))
          (wallet_difficulty_for_game wallet.difficulties GameSlug.towers) game.difficulty seeds in
      record {
        id = draws.bet_id;
        user = user;
        game = game.id;
        session = session_id;
        reference = draws.bet_reference;
        stake = cents stake;
        multiplier = pos 0;
        payout = pos 0;
        status = BetStatus.«open»;
        selection = Selection.towers difficulty;
        outcome = Outcome.towers (build_towers_grid hmac difficulty seeds) [];
        server_seed = draws.server_seed;
        server_seed_hash = draws.server_seed_hash;
        client_seed = draws.client_seed;
        nonce = nonce;
        was_controlled = was_forced forced;
        settled_at = none;
      }

  -- From the debit on.
  unfoldable pub open_towers :
      ℕ → ℕ → Game → Number → Difficulty → Wallet → Store → Reply TowersRoundState × Store
  open_towers user session_id game stake difficulty wallet db =
      elim (debit user (cents stake) (hold (cents stake)) db) [
        | none ↦ (fail (plain "Insufficient balance") insufficient, db)
        | some held ↦
            writes draws.rejects
              ((
                Statement.bet_insert,
                insert_bet (towers_bet user session_id game stake difficulty wallet db),
              )
                ∷ (Statement.ledger_insert, insert_transactions (stake_row user stake draws ∷ []))
                ∷ (Statement.session_update, bump_session session_id stake (whole 0))
                ∷ [])
              (ok (
                towers_state power draws.bet_reference session_id difficulty [] (whole 0)
                  game.house_edge))
              held
      ]

  unfoldable pub start_towers_with :
      ℕ → ℕ → Game → Number → Difficulty → Store → Reply TowersRoundState × Store
  start_towers_with user session_id game stake difficulty db =
      if has_open_bet user game.id db
      then (fail (plain "You already have a Towers round in progress") validation, db)
      else let (wallet, db1) = get_or_create user db in
        if wallet.is_locked
        then (fail (plain "Your wallet is locked. Contact support.") unavailable, db1)
        else open_towers user session_id game stake difficulty wallet db1

  unfoldable pub start_towers : ℕ → ℕ → Number → Json → Store → Reply TowersRoundState × Store
  start_towers user session_id stake_input difficulty_input db =
      and_then (require_open_session user session_id GameSlug.towers db) db λ (session, game).
        and_then (validated_towers conv difficulty_input) db λ difficulty.
          and_then (parse_stake stake_input game.min_bet game.max_bet) db
            λ stake. start_towers_with user session_id game stake difficulty db

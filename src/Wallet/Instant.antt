-- ===== src/Wallet/Instant.antt =====
-- `placeBet` of libs/wallet/src/play.service.ts: a bet on a game that settles at once.
use Prim.Native.String.{String}
use crispy_enigma.Base.{ℕ, List, [], ◌∷◌, Bool, not, if◌then◌else◌, Option, none, some}
use crispy_enigma.Base.Int.{ℤ, ◌+ℤ◌}
use crispy_enigma.Number.{Number, whole, mul, sub, lt, is_finite}
use crispy_enigma.Contracts.{
  GameSlug, is_instant_game, Selection, Outcome, RoundResult, ForcedResult,
}
use crispy_enigma.Engine.Rng.{Hmac}
use crispy_enigma.Engine.Round.{resolve_round}
use crispy_enigma.Engine.Control.{resolve_control, wallet_difficulty_for_game, apply_win_cap}
use crispy_enigma.Engine.Validate.{Json, Conversions, Validated, valid, invalid, validate_selection}
use crispy_enigma.Wallet.Money.{round_money, cents, ten_thousandths, from_cents}
use crispy_enigma.Wallet.Reply.{
  Reply, ok, fail, thrown, plain, validation, unavailable, insufficient, and_then,
}
use crispy_enigma.Wallet.RuleWrites.{rule_writes}
use crispy_enigma.Wallet.Writes.{Statement, writes}
use crispy_enigma.Wallet.Store.{Wallet, Game, Bet, BetStatus, Transaction, Store, get_or_create}
use crispy_enigma.Wallet.Guards.{
  require_open_session, parse_stake, next_nonce, get_control_row, row_rule, same_slug,
}
use crispy_enigma.Wallet.Bets.{
  Draws, seeds_of, was_forced, or_zero, balance_of, debit, insert_bet, insert_transactions,
  stake_row, payout_row, bump_session,
}

-- `SettledBet`
pub record SettledBet : Type 0 where
  pub reference : ℕ
  pub session : ℕ
  pub game_slug : GameSlug
  pub won : Bool
  pub stake : Number
  pub multiplier : Number
  pub payout : Number
  pub outcome : Outcome
  pub server_seed_hash : String
  pub client_seed : String
  pub nonce : ℕ
  pub balance : Number
  pub settled_at : ℕ

unfoldable pub not_instant_message : GameSlug → Reply SettledBet
not_instant_message slug =
    if same_slug slug GameSlug.towers
    then fail (plain "Towers rounds are started with towers.start") validation
    else fail (plain "Mines rounds are started with mines.start") validation

abbrev pub or_invalid : Validated → Reply Selection
or_invalid (valid selection) = ok selection
or_invalid (invalid error) = fail (plain error) validation

abbrev pub or_no_result : Option RoundResult → Reply RoundResult
or_no_result none = thrown
or_no_result (some result) = ok result

-- `result.won ? roundMoney(stake * result.multiplier) : 0`
unfoldable pub payout_of : Number → RoundResult → Number
payout_of stake result = if result.won then round_money (mul stake result.multiplier) else whole 0

-- The change of a settled bet: the net to the balance.
unfoldable pub settle : ℤ → ℤ → ℤ → Wallet → Wallet
settle net staked won w = record w {
  balance = w.balance +ℤ net;
  total_wagered = w.total_wagered +ℤ staked;
  total_won = w.total_won +ℤ won;
}

module _ (hmac : Hmac) (conv : Conversions) (draws : Draws) where
  unfoldable pub control_of : ℕ → Game → Wallet → Store → ForcedResult
  control_of user game wallet db =
      resolve_control hmac (row_rule (get_control_row user game.id db))
        (wallet_difficulty_for_game wallet.difficulties game.slug) game.difficulty
        (seeds_of draws (next_nonce user db))

  -- The result of the round, under the cap of the user's rule.
  unfoldable pub rolled : ℕ → Game → Selection → Wallet → Store → Reply RoundResult
  rolled user game selection wallet db =
      elim (or_no_result (
        resolve_round hmac selection (seeds_of draws (next_nonce user db))
          (record { house_edge = game.house_edge; max_multiplier = game.max_multiplier })
          (control_of user game wallet db))) [
            | ok raw ↦ ok (apply_win_cap raw (row_rule (get_control_row user game.id db)))
            | fail message code ↦ fail message code
            | thrown ↦ thrown
          ]

  unfoldable pub settled_bet :
      ℕ → ℕ → Game → Selection → Number → Number → RoundResult → Wallet → Store → Bet
  settled_bet user session_id game selection stake payout result wallet db = record {
    id = draws.bet_id;
    user = user;
    game = game.id;
    session = session_id;
    reference = draws.bet_reference;
    stake = cents stake;
    multiplier = ten_thousandths result.multiplier;
    payout = cents payout;
    status = if result.won then BetStatus.won else BetStatus.lost;
    selection = selection;
    outcome = result.outcome;
    server_seed = draws.server_seed;
    server_seed_hash = draws.server_seed_hash;
    client_seed = draws.client_seed;
    nonce = next_nonce user db;
    was_controlled = was_forced (control_of user game wallet db);
    settled_at = some draws.now;
  }

  -- The ledger rows: the stake, and the payout if there is one.
  unfoldable pub bet_rows : ℕ → Number → Number → Option ℤ → List Transaction
  bet_rows user stake payout balance =
      stake_row user stake draws
      ∷ (if lt (whole 0) payout
          then payout_row user payout balance draws.bet_reference draws ∷ []
          else [])

  -- From the update of the wallet on; an infinite payout is refused by its column, which throws.
  unfoldable pub write_bet :
      ℕ
      → ℕ
      → Game
      → Selection
      → Number
      → Number
      → RoundResult
      → Wallet
      → Store
      → Reply SettledBet × Store
  write_bet user session_id game selection stake payout result wallet db =
      if not (is_finite payout)
      then (thrown, db)
      else elim (debit user (cents stake)
          (settle (cents (sub payout stake)) (cents stake) (cents payout)) db) [
            | none ↦ (fail (plain "Insufficient balance") insufficient, db)
            | some updated ↦
                let balance = balance_of user updated in
                writes draws.rejects
                  ((
                    Statement.bet_insert,
                    insert_bet
                        (settled_bet user session_id game selection stake payout result wallet db),
                  )
                    ∷ (
                      Statement.ledger_insert,
                      insert_transactions (bet_rows user stake payout balance),
                    )
                    ∷ (Statement.session_update, bump_session session_id stake payout)
                    ∷ rule_writes (get_control_row user game.id db))
                  (ok (record {
                    reference = draws.bet_reference;
                    session = session_id;
                    game_slug = game.slug;
                    won = result.won;
                    stake = stake;
                    multiplier = result.multiplier;
                    payout = payout;
                    outcome = result.outcome;
                    server_seed_hash = draws.server_seed_hash;
                    client_seed = draws.client_seed;
                    nonce = next_nonce user db;
                    balance = from_cents (or_zero balance);
                    settled_at = draws.now;
                  }))
                  updated
          ]

  unfoldable pub place_bet_with :
      ℕ → ℕ → Game → Selection → Number → Store → Reply SettledBet × Store
  place_bet_with user session_id game selection stake db =
      let (wallet, db1) = get_or_create user db in
      if wallet.is_locked
      then (fail (plain "Your wallet is locked. Contact support.") unavailable, db1)
      else and_then (rolled user game selection wallet db1) db1 λ result.
        write_bet user session_id game selection stake (payout_of stake result) result wallet db1

  unfoldable pub place_bet : ℕ → ℕ → GameSlug → Number → Json → Store → Reply SettledBet × Store
  place_bet user session_id slug stake_input selection_input db =
      if not (is_instant_game slug)
      then (not_instant_message slug, db)
      else and_then (require_open_session user session_id slug db) db λ (session, game).
        and_then (or_invalid (validate_selection conv slug selection_input)) db λ selection.
          and_then (parse_stake stake_input game.min_bet game.max_bet) db
            λ stake. place_bet_with user session_id game selection stake db

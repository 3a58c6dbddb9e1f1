-- ===== src/Controller/Handlers.antt =====
-- The handlers of apps/engine/src/engine.controller.ts, one for each message pattern.
use crispy_enigma.Base.{ℕ, Bool, true, false, List, [], ◌∷◌, Option, none, some, if◌then◌else◌}
use crispy_enigma.Number.{Number, whole}
use crispy_enigma.Contracts.{GameSlug, Outcome}
use crispy_enigma.Engine.Rng.{Hmac}
use crispy_enigma.Engine.Towers.{Power}
use crispy_enigma.Engine.Validate.{Json, Conversions}
use crispy_enigma.Wallet.Store.{BetStatus, Store}
use crispy_enigma.Wallet.Bets.{Draws}
use crispy_enigma.Wallet.Sessions.{GameSessionDto, Ended, start_session, end_session, get_session}
use crispy_enigma.Wallet.Instant.{SettledBet, place_bet}
use crispy_enigma.Wallet.Mines.{MinesRoundState, start_mines}
use crispy_enigma.Wallet.Mines.Reveal.{reveal_mines, cash_out_mines, get_open_mines}
use crispy_enigma.Wallet.Towers.{TowersRoundState, start_towers}
use crispy_enigma.Wallet.Towers.Reveal.{reveal_towers, cash_out_towers, get_open_towers}
use crispy_enigma.Messages.{
  ChannelEvent, RoutingKey, Content, SessionEvent, BusEvent, Job, Effect, Services, emit, queue,
}
use crispy_enigma.Controller.Fanout.{
  fanout_bet, fanout_session, started, Handled, then_send, then_try,
}

abbrev pub number_or_zero : Option Number → Number
number_or_zero none = whole 0
number_or_zero (some x) = x

abbrev pub is_cashed_out : BetStatus → Bool
is_cashed_out BetStatus.cashed_out = true
is_cashed_out status = false

abbrev pub positions_or_none : Option (List ℕ) → List ℕ
positions_or_none none = []
positions_or_none (some positions) = positions

abbrev pub traps_or_none : Option (List (List ℕ)) → List (List ℕ)
traps_or_none none = []
traps_or_none (some traps) = traps

-- The bet that a cash-out makes up for the fan-out.
unfoldable pub mines_win : ℕ → ℕ → MinesRoundState → SettledBet
mines_win now session_id state = record {
  reference = state.reference;
  session = session_id;
  game_slug = GameSlug.mines;
  won = true;
  stake = whole 0;
  multiplier = state.multiplier;
  payout = number_or_zero state.payout;
  outcome = Outcome.mines (positions_or_none state.mine_positions) state.revealed;
  server_seed_hash = "";
  client_seed = "";
  nonce = 0;
  balance = number_or_zero state.balance;
  settled_at = now;
}

unfoldable pub towers_win : ℕ → ℕ → TowersRoundState → SettledBet
towers_win now session_id state = record {
  reference = state.reference;
  session = session_id;
  game_slug = GameSlug.towers;
  won = true;
  stake = whole 0;
  multiplier = state.multiplier;
  payout = number_or_zero state.payout;
  outcome = Outcome.towers (traps_or_none state.traps) state.picks;
  server_seed_hash = "";
  client_seed = "";
  nonce = 0;
  balance = number_or_zero state.balance;
  settled_at = now;
}

abbrev pub session_ended_effects : ℕ → ℕ → Ended → List Effect
session_ended_effects user session_id done =
    let event : SessionEvent = record { player = user; session = session_id; game_slug = none } in
    emit RoutingKey.session_ended (BusEvent.game_session event) ∷ queue (Job.ended event) ∷ []

abbrev pub mines_started_effects : ℕ → MinesRoundState → List Effect
mines_started_effects user state = emit RoutingKey.mines_started (BusEvent.mines user state) ∷ []

abbrev pub mines_revealed_effects : ℕ → ℕ → MinesRoundState → List Effect
mines_revealed_effects user session_id state =
    emit RoutingKey.mines_settled (BusEvent.mines user state)
    ∷ queue (
        Job.realtime (record {
          player = user;
          session = session_id;
          event = ChannelEvent.mines_updated;
          payload = Content.mines state;
        }))
    ∷ []

abbrev pub mines_cashed_effects : ℕ → ℕ → ℕ → MinesRoundState → List Effect
mines_cashed_effects now user session_id state =
    emit RoutingKey.mines_settled (BusEvent.mines user state)
    ∷ (if is_cashed_out state.status then fanout_bet user (mines_win now session_id state) else [])

abbrev pub towers_started_effects : ℕ → TowersRoundState → List Effect
towers_started_effects user state = emit RoutingKey.towers_started (BusEvent.towers user state) ∷ []

abbrev pub towers_revealed_effects : ℕ → ℕ → TowersRoundState → List Effect
towers_revealed_effects user session_id state =
    emit RoutingKey.towers_settled (BusEvent.towers user state)
    ∷ queue (
        Job.realtime (record {
          player = user;
          session = session_id;
          event = ChannelEvent.towers_updated;
          payload = Content.towers state;
        }))
    ∷ []

abbrev pub towers_cashed_effects : ℕ → ℕ → ℕ → TowersRoundState → List Effect
towers_cashed_effects now user session_id state =
    emit RoutingKey.towers_settled (BusEvent.towers user state)
    ∷ (if is_cashed_out state.status then fanout_bet user (towers_win now session_id state) else [])

module _ (services : Services) (hmac : Hmac) (power : Power) (conv : Conversions) (draws : Draws)
    (user : ℕ) where
  -- `id` is the key that the insert draws.
  unfoldable pub handle_start_session : ℕ → GameSlug → Store → Handled GameSessionDto
  handle_start_session id game_slug db =
      then_send services (λ session. fanout_session user session started)
        (start_session draws.now id user game_slug db)

  unfoldable pub handle_end_session : ℕ → Store → Handled Ended
  handle_end_session session_id db =
      then_send services (session_ended_effects user session_id)
        (end_session draws.now user session_id db)

  unfoldable pub handle_get_session : ℕ → Store → Handled GameSessionDto
  handle_get_session session_id db = record {
    reply = get_session draws.now user session_id db;
    store = db;
    sent = [];
  }

  unfoldable pub handle_place_bet : ℕ → GameSlug → Number → Json → Store → Handled SettledBet
  handle_place_bet session_id slug stake selection db =
      then_try services (fanout_bet user)
        (place_bet hmac conv draws user session_id slug stake selection db)

  unfoldable pub handle_mines_start : ℕ → Number → Number → Store → Handled MinesRoundState
  handle_mines_start session_id stake mine_count db =
      then_send services (mines_started_effects user)
        (start_mines hmac conv draws user session_id stake mine_count db)

  unfoldable pub handle_mines_reveal : ℕ → ℕ → Number → Store → Handled MinesRoundState
  handle_mines_reveal session_id reference tile db =
      then_send services (mines_revealed_effects user session_id)
        (reveal_mines draws user session_id reference tile db)

  unfoldable pub handle_mines_cashout : ℕ → ℕ → Store → Handled MinesRoundState
  handle_mines_cashout session_id reference db =
      then_send services (mines_cashed_effects draws.now user session_id)
        (cash_out_mines draws user session_id reference db)

  unfoldable pub handle_mines_open : ℕ → Store → Handled (Option MinesRoundState)
  handle_mines_open session_id db = record {
    reply = get_open_mines user session_id db;
    store = db;
    sent = [];
  }

  unfoldable pub handle_towers_start : ℕ → Number → Json → Store → Handled TowersRoundState
  handle_towers_start session_id stake difficulty db =
      then_send services (towers_started_effects user)
        (start_towers hmac power conv draws user session_id stake difficulty db)

  unfoldable pub handle_towers_reveal : ℕ → ℕ → Number → Store → Handled TowersRoundState
  handle_towers_reveal session_id reference tile db =
      then_send services (towers_revealed_effects user session_id)
        (reveal_towers power draws user session_id reference tile db)

  unfoldable pub handle_towers_cashout : ℕ → ℕ → Store → Handled TowersRoundState
  handle_towers_cashout session_id reference db =
      then_send services (towers_cashed_effects draws.now user session_id)
        (cash_out_towers draws user session_id reference db)

  unfoldable pub handle_towers_open : ℕ → Store → Handled (Option TowersRoundState)
  handle_towers_open session_id db = record {
    reply = get_open_towers power user session_id db;
    store = db;
    sent = [];
  }

-- ===== src/Controller/Fanout.antt =====
-- `fanoutBet` and `fanoutSession` of apps/engine/src/engine.controller.ts, and the answer of a
-- handler that sends messages once the play service has succeeded.
use crispy_enigma.Base.{ℕ, Bool, false, List, [], ◌∷◌, ◌++◌, ◌&&◌, none, some, if◌then◌else◌}
use crispy_enigma.Number.{whole, lt}
use crispy_enigma.Wallet.Reply.{Reply, ok, fail, thrown}
use crispy_enigma.Wallet.Store.{BetStatus, Store}
use crispy_enigma.Wallet.Sessions.{HistoryItem, GameSessionDto}
use crispy_enigma.Wallet.Instant.{SettledBet}
use crispy_enigma.Messages.{
  Channel, ChannelEvent, RoutingKey, LiveWin, Content, BetSettledEvent, BusEvent, Job, Effect,
  Services, publish, emit, queue, perform,
}

abbrev pub bet_event : ℕ → SettledBet → BetSettledEvent
bet_event user bet = record {
  player = user;
  bet_reference = bet.reference;
  session = bet.session;
  game_slug = bet.game_slug;
  stake = bet.stake;
  multiplier = bet.multiplier;
  payout = bet.payout;
  won = bet.won;
  outcome = bet.outcome;
  was_controlled = false;
  occurred_at = bet.settled_at;
}

-- The item of the history job.
abbrev pub bet_item : SettledBet → HistoryItem
bet_item bet = record {
  reference = bet.reference;
  won = bet.won;
  stake = bet.stake;
  multiplier = bet.multiplier;
  payout = bet.payout;
  status = if bet.won then BetStatus.won else BetStatus.lost;
  outcome = bet.outcome;
  settled_at = some bet.settled_at;
}

-- `bet.won && bet.payout > 0`
abbrev pub is_paid_win : SettledBet → Bool
is_paid_win bet = bet.won && lt (whole 0) bet.payout

abbrev pub win_of : SettledBet → LiveWin
win_of bet = record {
  game_slug = bet.game_slug;
  payout = bet.payout;
  multiplier = bet.multiplier;
  player = none;
}

unfoldable pub fanout_bet : ℕ → SettledBet → List Effect
fanout_bet user bet =
    publish (Channel.user user) ChannelEvent.bet_settled (Content.bet bet)
      ∷ publish (Channel.session bet.session) ChannelEvent.bet_settled (Content.bet bet)
      ∷ (if is_paid_win bet
          then publish Channel.lobby ChannelEvent.live_win (Content.win (win_of bet)) ∷ []
          else [])
    ++ (emit RoutingKey.bet_settled (BusEvent.bet (bet_event user bet))
        ∷ queue (
            Job.realtime (record {
              player = user;
              session = bet.session;
              event = ChannelEvent.bet_settled;
              payload = Content.bet bet;
            }))
        ∷ queue (Job.history bet.session (bet_item bet))
        ∷ [])

-- `kind`
pub data SessionKind : Type 0 where
  started ended : SessionKind

abbrev pub routing_key_of : SessionKind → RoutingKey
routing_key_of started = RoutingKey.session_started
routing_key_of ended = RoutingKey.session_ended

abbrev pub channel_event_of : SessionKind → ChannelEvent
channel_event_of started = ChannelEvent.session_started
channel_event_of ended = ChannelEvent.session_ended

unfoldable pub fanout_session : ℕ → GameSessionDto → SessionKind → List Effect
fanout_session user session kind =
    emit (routing_key_of kind) (
      BusEvent.game_session
        (record { player = user; session = session.id; game_slug = some session.game_slug }))
    ∷ queue (
        Job.realtime (record {
          player = user;
          session = session.id;
          event = channel_event_of kind;
          payload = Content.game_session session;
        }))
    ∷ []

-- What a request comes to: the answer, the store after it, and the messages that were taken.
pub record Handled {ℓ} (A : Type ℓ) : Type ℓ where
  pub reply : Reply A
  pub store : Store
  pub sent : List Effect

module _ {ℓ} {A : Type ℓ} where
  -- Messages after a success; one that is rejected makes the handler throw.
  unfoldable pub then_send : Services → (A → List Effect) → Reply A × Store → Handled A
  then_send services effects (ok a, db) =
      let (done, sent) = perform services (effects a) in
      record { reply = if done then ok a else thrown; store = db; sent = sent }
  then_send services effects (fail message code, db) = record {
    reply = fail message code;
    store = db;
    sent = [];
  }
  then_send services effects (thrown, db) = record { reply = thrown; store = db; sent = [] }

  -- The same, but a rejection is caught.
  unfoldable pub then_try : Services → (A → List Effect) → Reply A × Store → Handled A
  then_try services effects (ok a, db) = record {
    reply = ok a;
    store = db;
    sent = (perform services (effects a)).1;
  }
  then_try services effects (fail message code, db) = record {
    reply = fail message code;
    store = db;
    sent = [];
  }
  then_try services effects (thrown, db) = record { reply = thrown; store = db; sent = [] }

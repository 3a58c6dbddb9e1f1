-- ===== src/Messages.antt =====
-- What the engine, the worker and the browsers tell one another: libs/contracts/src/channels.ts and
-- events.ts, the jobs of the two queues of commands.ts, and the services of libs/realtime and
-- libs/events that carry them. Drawn keys of events, and times that no consumer reads, are left out.
-- A session's key is never the empty text.
use crispy_enigma.Base.{ℕ, Bool, true, false, List, [], ◌∷◌, Option, if◌then◌else◌}
use crispy_enigma.Number.{Number}
use crispy_enigma.Contracts.{GameSlug, Outcome}
use crispy_enigma.Wallet.Sessions.{HistoryItem, GameSessionDto}
use crispy_enigma.Wallet.Instant.{SettledBet}
use crispy_enigma.Wallet.Mines.{MinesRoundState}
use crispy_enigma.Wallet.Towers.{TowersRoundState}

-- `channels`
pub data Channel : Type 0 where
  user : ℕ → Channel
  session : ℕ → Channel
  lobby : Channel

-- `CHANNEL_EVENTS`
pub data ChannelEvent : Type 0 where
  bet_settled mines_updated towers_updated balance_changed : ChannelEvent
  session_started session_ended live_win deposit_updated : ChannelEvent

-- `ROUTING_KEYS`
pub data RoutingKey : Type 0 where
  bet_settled mines_started mines_settled towers_started towers_settled : RoutingKey
  deposit_pending deposit_confirmed withdrawal_requested : RoutingKey
  session_started session_ended : RoutingKey

-- The payload of `liveWin`; only the worker's consumer of the bus names the player.
pub record LiveWin : Type 0 where
  pub game_slug : GameSlug
  pub payout : Number
  pub multiplier : Number
  pub player : Option ℕ

pub data Content : Type 0 where
  bet : SettledBet → Content
  mines : MinesRoundState → Content
  towers : TowersRoundState → Content
  game_session : GameSessionDto → Content
  win : LiveWin → Content

-- `BetSettledEvent`
pub record BetSettledEvent : Type 0 where
  pub player : ℕ
  pub bet_reference : ℕ
  pub session : ℕ
  pub game_slug : GameSlug
  pub stake : Number
  pub multiplier : Number
  pub payout : Number
  pub won : Bool
  pub outcome : Outcome
  pub was_controlled : Bool
  pub occurred_at : ℕ

-- `SessionEvent`; the empty slug is `none`.
pub record SessionEvent : Type 0 where
  pub player : ℕ
  pub session : ℕ
  pub game_slug : Option GameSlug

-- A payload of the bus: a round's state is sent with its player.
pub data BusEvent : Type 0 where
  bet : BetSettledEvent → BusEvent
  game_session : SessionEvent → BusEvent
  mines : ℕ → MinesRoundState → BusEvent
  towers : ℕ → TowersRoundState → BusEvent

-- `RealtimeJob` of apps/worker/src/realtime.processor.ts
pub record RealtimeJob : Type 0 where
  pub player : ℕ
  pub session : ℕ
  pub event : ChannelEvent
  pub payload : Content

-- The jobs of the two queues: one of `BULL_QUEUES.realtime`, and two of `BULL_QUEUES.session`.
pub data Job : Type 0 where
  realtime : RealtimeJob → Job
  history : ℕ → HistoryItem → Job
  ended : SessionEvent → Job

-- A call of one of the services.
pub data Effect : Type 0 where
  publish : Channel → ChannelEvent → Content → Effect
  emit : RoutingKey → BusEvent → Effect
  queue : Job → Effect

-- What the services outside answer: whether Ably (given a key) takes a message, whether RabbitMQ
-- (given a channel) takes one, and whether Redis takes a job.
pub record Services : Type 0 where
  pub takes_message : Channel → ChannelEvent → Content → Bool
  pub takes_event : RoutingKey → BusEvent → Bool
  pub takes_job : Job → Bool

-- `RealtimeService.publish` and `EventsService.publish` catch every error; `Queue.add` rejects.
-- Each call is awaited, so a rejection drops the calls after it. The result is whether no call was
-- rejected, and what was taken, in order.
unfoldable pub perform : Services → List Effect → Bool × List Effect
perform services [] = (true, [])
perform services (publish channel event content ∷ effects) =
    let rest = perform services effects in
    if services.takes_message channel event content
    then (rest.0, publish channel event content ∷ rest.1)
    else rest
perform services (emit key event ∷ effects) =
    let rest = perform services effects in
    if services.takes_event key event then (rest.0, emit key event ∷ rest.1) else rest
perform services (queue job ∷ effects) =
    let rest = perform services effects in
    if services.takes_job job then (rest.0, queue job ∷ rest.1) else (false, [])

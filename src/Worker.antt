-- ===== src/Worker.antt =====
-- apps/worker/src: the consumers of the queues (realtime.processor.ts, session.processor.ts) and of
-- the bus (events.controller.ts), and the cache of libs/cache/src/cache.service.ts that keeps the
-- history of a session.
pub mod History
pub mod LiveWins
use crispy_enigma.Base.{
  ℕ, Bool, true, false, List, [], ◌∷◌, ◌++◌, ◌||◌, not, Option, none, some, if◌then◌else◌, ◌==◌,
  take, ltb, ◌+◌, ◌*◌,
}
use crispy_enigma.Number.{whole, le}
use crispy_enigma.Wallet.Sessions.{HistoryItem}
use crispy_enigma.Messages.{
  Channel, ChannelEvent, RoutingKey, LiveWin, Content, BetSettledEvent, BusEvent, RealtimeJob, Job,
  Effect, Services, publish, emit, queue, perform,
}
use crispy_enigma.Controller.Fanout.{is_paid_win, win_of}

-- A payload that is read as a bet; all others have no `won`.
abbrev pub lobby_win : Content → List Effect
lobby_win (Content.bet bet) =
    if is_paid_win bet
    then publish Channel.lobby ChannelEvent.live_win (Content.win (win_of bet)) ∷ []
    else []
lobby_win content = []

abbrev pub is_bet_settled : ChannelEvent → Bool
is_bet_settled ChannelEvent.bet_settled = true
is_bet_settled event = false

-- `RealtimeProcessor.process`
unfoldable pub process_realtime : RealtimeJob → List Effect
process_realtime job =
    publish (Channel.user job.player) job.event job.payload
    ∷ publish (Channel.session job.session) job.event job.payload
    ∷ (if is_bet_settled job.event then lobby_win job.payload else [])

-- `EventsController.onBetSettled`
unfoldable pub on_bet_settled : BetSettledEvent → List Effect
on_bet_settled event =
    if not event.won || le event.payout (whole 0)
    then []
    else publish Channel.lobby ChannelEvent.live_win (
        Content.win (record {
          game_slug = event.game_slug;
          payout = event.payout;
          multiplier = event.multiplier;
          player = some event.player;
        }))
      ∷ []

-- What the worker does with something that the engine sent. Its consumer of the bus is bound to one
-- routing key; whether the worker's server hands the bare payload on the bus to `onBetSettled` is
-- for the framework to decide, and a parameter.
unfoldable pub consume : (BetSettledEvent → Bool) → Effect → List Effect
consume dispatches (emit RoutingKey.bet_settled (BusEvent.bet event)) =
    if dispatches event then on_bet_settled event else []
consume dispatches (queue (Job.realtime job)) = process_realtime job
consume dispatches effect = []

unfoldable pub deliver : (BetSettledEvent → Bool) → Services → List Effect → List Effect
deliver dispatches services [] = []
deliver dispatches services (effect ∷ effects) =
    (perform services (consume dispatches effect)).1 ++ deliver dispatches services effects

-- A cached history, and the time in milliseconds until which it is kept.
pub record Entry : Type 0 where
  pub deadline : ℕ
  pub items : List HistoryItem

-- The histories at the keys `session:…:history`.
abbrev pub Cache : Type 0
Cache = ℕ → Option Entry

abbrev pub empty_cache : Cache
empty_cache session = none

-- `get`, `set` and `del` of the cache at a time; an entry is gone once its seconds to live are over.
abbrev pub live_items : ℕ → Option Entry → List HistoryItem
live_items now none = []
live_items now (some entry) = if ltb now entry.deadline then entry.items else []

unfoldable pub cached : ℕ → ℕ → Cache → List HistoryItem
cached now session cache = live_items now (cache session)

abbrev pub put : ℕ → ℕ → List HistoryItem → ℕ → Cache → Cache
put now session items ttl_seconds cache other =
    if other == session
    then some (record { deadline = now + 1_000 * ttl_seconds; items = items })
    else cache other

abbrev pub del : ℕ → Cache → Cache
del session cache other = if other == session then none else cache other

-- `60 * 60 * 12`
abbrev pub half_day : ℕ
half_day = 60 * 60 * 12

-- `SessionProcessor.process` at a time; the other queue's jobs do not come here.
unfoldable pub process_session : ℕ → Job → Cache → Cache
unfolding cached
process_session now (Job.ended event) cache = del event.session cache
process_session now (Job.history session item) cache =
    put now session (take 50 (item ∷ cached now session cache)) half_day cache
process_session now (Job.realtime job) cache = cache

-- ===== src/Wallet/Sessions.antt =====
-- `startSession`, `endSession`, `getSession` and their helpers of libs/wallet/src/play.service.ts,
-- and `summarize` of libs/wallet/src/wallet.service.ts.
use crispy_enigma.Base.{
  ℕ, List, [], ◌∷◌, ◌++◌, map, Bool, true, false, ◌&&◌, not, if◌then◌else◌, Option, none, some,
  ◌==◌, length, take, keep,
}
use crispy_enigma.Base.Int.{pos}
use crispy_enigma.Number.{Number, add, sub}
use crispy_enigma.Contracts.{GameSlug, Outcome}
use crispy_enigma.Wallet.Money.{from_cents, from_ten_thousandths}
use crispy_enigma.Wallet.Reply.{Reply, ok, fail, plain, validation, and_then}
use crispy_enigma.Wallet.Store.{Wallet, Session, Bet, BetStatus, Store, first_where, update_where}
use crispy_enigma.Wallet.Guards.{get_playable_game, has_ended, is_session_of}

-- `SessionHistoryItem`
pub record HistoryItem : Type 0 where
  pub reference : ℕ
  pub won : Bool
  pub stake : Number
  pub multiplier : Number
  pub payout : Number
  pub status : BetStatus
  pub outcome : Outcome
  pub settled_at : Option ℕ

-- `GameSessionDto`
pub record GameSessionDto : Type 0 where
  pub id : ℕ
  pub game_slug : GameSlug
  pub started_at : ℕ
  pub ended_at : Option ℕ
  pub bet_count : ℕ
  pub total_staked : Number
  pub total_won : Number
  pub history : List HistoryItem

abbrev pub counts_as_won : BetStatus → Bool
counts_as_won BetStatus.won = true
counts_as_won BetStatus.cashed_out = true
counts_as_won status = false

unfoldable pub history_item : Bet → HistoryItem
history_item row = record {
  reference = row.reference;
  won = counts_as_won row.status;
  stake = from_cents row.stake;
  multiplier = from_ten_thousandths row.multiplier;
  payout = from_cents row.payout;
  status = row.status;
  outcome = row.outcome;
  settled_at = row.settled_at;
}

reversed : List Bet → List Bet → List Bet
reversed done [] = done
reversed done (b ∷ bs) = reversed (b ∷ done) bs

-- The newest 50 bets of a session: rows are kept in the order they are made.
unfoldable pub recent_bets : ℕ → Store → List Bet
unfolding reversed
recent_bets session_id db = take 50 (reversed [] (keep (λ b. b.session == session_id) db.bets))

-- `toSessionDto` at a time `now`
unfoldable pub to_session_dto : ℕ → ℕ → GameSlug → Store → GameSessionDto
to_session_dto now session_id game_slug db =
    let history = map history_item (recent_bets session_id db) in
    elim (first_where (λ s. s.id == session_id) db.sessions) [
      | none ↦ record {
        id = session_id;
        game_slug = game_slug;
        started_at = now;
        ended_at = none;
        bet_count = length history;
        total_staked = from_cents (pos 0);
        total_won = from_cents (pos 0);
        history = history;
      }
      | some session ↦ record {
        id = session_id;
        game_slug = game_slug;
        started_at = session.started_at;
        ended_at = session.ended_at;
        bet_count = session.bet_count;
        total_staked = from_cents session.total_staked;
        total_won = from_cents session.total_won;
        history = history;
      }
    ]

abbrev pub is_open_session_of : ℕ → ℕ → Session → Bool
is_open_session_of user game s = s.user == user && s.game == game && not (has_ended s)

abbrev pub end_at : ℕ → Session → Session
end_at now s = record s { ended_at = some now }

unfoldable pub end_open_sessions : ℕ → ℕ → ℕ → Store → Store
end_open_sessions now user game db = record db {
  sessions = update_where (is_open_session_of user game) (end_at now) db.sessions;
}

unfoldable pub new_session : ℕ → ℕ → ℕ → ℕ → Session
new_session now id user game = record {
  id = id;
  user = user;
  game = game;
  bet_count = 0;
  total_staked = pos 0;
  total_won = pos 0;
  started_at = now;
  ended_at = none;
}

unfoldable pub insert_session : Session → Store → Store
insert_session session db = record db { sessions = db.sessions ++ (session ∷ []) }

-- `id` is the key that the insert draws.
unfoldable pub start_session : ℕ → ℕ → ℕ → GameSlug → Store → Reply GameSessionDto × Store
start_session now id user game_slug db = and_then (get_playable_game user game_slug db) db λ game.
    let db1 =
      insert_session (new_session now id user game.id) (end_open_sessions now user game.id db) in
    (ok (to_session_dto now id game_slug db1), db1)

-- `{ ended: true }`
pub data Ended : Type 0 where
  ended : Ended

unfoldable pub end_session : ℕ → ℕ → ℕ → Store → Reply Ended × Store
end_session now user session_id db =
    elim (first_where (is_session_of user session_id) db.sessions) [
      | none ↦ (fail (plain "Session not found") validation, db)
      | some session ↦ if has_ended session then (ok ended, db) else (
        ok ended,
        record db { sessions = update_where (λ s. s.id == session.id) (end_at now) db.sessions },
      )
    ]

unfoldable pub get_session : ℕ → ℕ → ℕ → Store → Reply GameSessionDto
get_session now user session_id db =
    elim (first_where (is_session_of user session_id) db.sessions) [
      | none ↦ fail (plain "Session not found") validation
      | some session ↦ elim (first_where (λ g. g.id == session.game) db.games) [
        | none ↦ fail (plain "Session not found") validation
        | some game ↦ ok (to_session_dto now session.id game.slug db)
      ]
    ]

pub record Summary : Type 0 where
  pub balance : Number
  pub bonus_balance : Number
  pub locked_balance : Number
  pub playable : Number
  pub total_wagered : Number
  pub total_won : Number
  pub total_deposited : Number
  pub net_profit : Number
  pub is_locked : Bool

unfoldable pub summarize : Wallet → Summary
summarize wallet =
    let balance = from_cents wallet.balance in
    let bonus = from_cents wallet.bonus_balance in
    let wagered = from_cents wallet.total_wagered in
    let won = from_cents wallet.total_won in
    record {
      balance = balance;
      bonus_balance = bonus;
      locked_balance = from_cents wallet.locked_balance;
      playable = add balance bonus;
      total_wagered = wagered;
      total_won = won;
      total_deposited = from_cents wallet.total_deposited;
      net_profit = sub won wagered;
      is_locked = wallet.is_locked;
    }

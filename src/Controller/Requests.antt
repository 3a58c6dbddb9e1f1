-- ===== src/Controller/Requests.antt =====
-- The commands of libs/contracts/src/commands.ts with their payloads, and the handler that the
-- engine runs for each.
use crispy_enigma.Base.{ℕ, [], Option}
use crispy_enigma.Number.{Number}
use crispy_enigma.Contracts.{GameSlug}
use crispy_enigma.Engine.Rng.{Hmac}
use crispy_enigma.Engine.Towers.{Power}
use crispy_enigma.Engine.Validate.{Json, Conversions}
use crispy_enigma.Wallet.Reply.{Reply, ok, fail, thrown}
use crispy_enigma.Wallet.Store.{Store}
use crispy_enigma.Wallet.Bets.{Draws}
use crispy_enigma.Wallet.Sessions.{GameSessionDto, Ended}
use crispy_enigma.Wallet.Instant.{SettledBet}
use crispy_enigma.Wallet.Mines.{MinesRoundState}
use crispy_enigma.Wallet.Towers.{TowersRoundState}
use crispy_enigma.Messages.{Services}
use crispy_enigma.Controller.Fanout.{Handled}
use crispy_enigma.Controller.Handlers.{
  handle_start_session, handle_end_session, handle_get_session, handle_place_bet,
  handle_mines_start, handle_mines_reveal, handle_mines_cashout, handle_mines_open,
  handle_towers_start, handle_towers_reveal, handle_towers_cashout, handle_towers_open,
}

-- `COMMANDS`, each with its payload
pub data Request : Type 0 where
  ping : Request
  session_start : GameSlug → Request
  session_end session_get : ℕ → Request
  bet_place : ℕ → GameSlug → Number → Json → Request
  mines_start : ℕ → Number → Number → Request
  mines_reveal : ℕ → ℕ → Number → Request
  mines_cashout : ℕ → ℕ → Request
  mines_open : ℕ → Request
  towers_start : ℕ → Number → Json → Request
  towers_reveal : ℕ → ℕ → Number → Request
  towers_cashout : ℕ → ℕ → Request
  towers_open : ℕ → Request

-- The `data` of a reply.
pub data Answer : Type 0 where
  pong : Answer
  game_session : GameSessionDto → Answer
  ended : Ended → Answer
  bet : SettledBet → Answer
  mines : MinesRoundState → Answer
  mines_round : Option MinesRoundState → Answer
  towers : TowersRoundState → Answer
  towers_round : Option TowersRoundState → Answer

module _ {ℓ} {A : Type ℓ} where
  abbrev pub map_reply : (A → Answer) → Reply A → Reply Answer
  map_reply f (ok a) = ok (f a)
  map_reply f (fail message code) = fail message code
  map_reply f thrown = thrown

  abbrev pub map_handled : (A → Answer) → Handled A → Handled Answer
  map_handled f h = record { reply = map_reply f h.reply; store = h.store; sent = h.sent }

-- The message patterns of the controller.
unfoldable pub handle :
    Services → Hmac → Power → Conversions → Draws → ℕ → ℕ → Request → Store → Handled Answer
handle services hmac power conv draws id user ping db = record {
  reply = ok Answer.pong;
  store = db;
  sent = [];
}
handle services hmac power conv draws id user (session_start slug) db =
    map_handled Answer.game_session
      (handle_start_session services hmac power conv draws user id slug db)
handle services hmac power conv draws id user (session_end session) db =
    map_handled Answer.ended (handle_end_session services hmac power conv draws user session db)
handle services hmac power conv draws id user (session_get session) db =
    map_handled Answer.game_session
      (handle_get_session services hmac power conv draws user session db)
handle services hmac power conv draws id user (bet_place session slug stake selection) db =
    map_handled Answer.bet
      (handle_place_bet services hmac power conv draws user session slug stake selection db)
handle services hmac power conv draws id user (mines_start session stake mine_count) db =
    map_handled Answer.mines
      (handle_mines_start services hmac power conv draws user session stake mine_count db)
handle services hmac power conv draws id user (mines_reveal session reference tile) db =
    map_handled Answer.mines
      (handle_mines_reveal services hmac power conv draws user session reference tile db)
handle services hmac power conv draws id user (mines_cashout session reference) db =
    map_handled Answer.mines
      (handle_mines_cashout services hmac power conv draws user session reference db)
handle services hmac power conv draws id user (mines_open session) db =
    map_handled Answer.mines_round
      (handle_mines_open services hmac power conv draws user session db)
handle services hmac power conv draws id user (towers_start session stake difficulty) db =
    map_handled Answer.towers
      (handle_towers_start services hmac power conv draws user session stake difficulty db)
handle services hmac power conv draws id user (towers_reveal session reference tile) db =
    map_handled Answer.towers
      (handle_towers_reveal services hmac power conv draws user session reference tile db)
handle services hmac power conv draws id user (towers_cashout session reference) db =
    map_handled Answer.towers
      (handle_towers_cashout services hmac power conv draws user session reference db)
handle services hmac power conv draws id user (towers_open session) db =
    map_handled Answer.towers_round
      (handle_towers_open services hmac power conv draws user session db)

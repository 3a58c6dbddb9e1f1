-- ===== src/Controller/Replies.antt =====
-- The engine answers for the play service.
use crispy_enigma.Base.{◌≡◌, refl, ◌⊎◌, inl, inr, ℕ, Bool, true, false, List, [], Bool-cases}
use crispy_enigma.Engine.Rng.{Hmac}
use crispy_enigma.Engine.Towers.{Power}
use crispy_enigma.Engine.Validate.{Conversions}
use crispy_enigma.Wallet.Reply.{Reply, ok, fail, thrown}
use crispy_enigma.Wallet.Store.{Store}
use crispy_enigma.Wallet.Bets.{Draws}
use crispy_enigma.Wallet.Atomic.{is_ok}
use crispy_enigma.Wallet.Sessions.{start_session, end_session, get_session}
use crispy_enigma.Wallet.Instant.{place_bet}
use crispy_enigma.Wallet.Mines.{start_mines}
use crispy_enigma.Wallet.Mines.Reveal.{reveal_mines, cash_out_mines, get_open_mines}
use crispy_enigma.Wallet.Towers.{start_towers}
use crispy_enigma.Wallet.Towers.Reveal.{reveal_towers, cash_out_towers, get_open_towers}
use crispy_enigma.Messages.{Effect, Services, perform}
use crispy_enigma.Controller.Fanout.{Handled, then_send, then_try}
use crispy_enigma.Controller.Handlers.{
  handle_start_session, handle_end_session, handle_get_session, handle_place_bet,
  handle_mines_start, handle_mines_reveal, handle_mines_cashout, handle_mines_open,
  handle_towers_start, handle_towers_reveal, handle_towers_cashout, handle_towers_open,
}
use crispy_enigma.Controller.Requests.{
  Request, ping, session_start, session_end, session_get, bet_place, mines_start, mines_reveal,
  mines_cashout, mines_open, towers_start, towers_reveal, towers_cashout, towers_open, Answer,
  map_reply, map_handled, handle,
}

abbrev pub plain_answer : Reply Answer → Store → Reply Answer × Store
plain_answer reply db = (reply, db)

abbrev pub map_first {ℓ} : {A : Type ℓ} → (A → Answer) → Reply A × Store → Reply Answer × Store
map_first f r = (map_reply f r.0, r.1)

-- The play service behind a request: its answer and the store after it, without any message.
unfoldable pub play :
    Hmac → Power → Conversions → Draws → ℕ → ℕ → Request → Store → Reply Answer × Store
play hmac power conv draws id user ping db = (ok Answer.pong, db)
play hmac power conv draws id user (session_start slug) db =
    map_first Answer.game_session (start_session draws.now id user slug db)
play hmac power conv draws id user (session_end session) db =
    map_first Answer.ended (end_session draws.now user session db)
play hmac power conv draws id user (session_get session) db =
    (map_reply Answer.game_session (get_session draws.now user session db), db)
play hmac power conv draws id user (bet_place session slug stake selection) db =
    map_first Answer.bet (place_bet hmac conv draws user session slug stake selection db)
play hmac power conv draws id user (mines_start session stake mine_count) db =
    map_first Answer.mines (start_mines hmac conv draws user session stake mine_count db)
play hmac power conv draws id user (mines_reveal session reference tile) db =
    map_first Answer.mines (reveal_mines draws user session reference tile db)
play hmac power conv draws id user (mines_cashout session reference) db =
    map_first Answer.mines (cash_out_mines draws user session reference db)
play hmac power conv draws id user (mines_open session) db =
    (map_reply Answer.mines_round (get_open_mines user session db), db)
play hmac power conv draws id user (towers_start session stake difficulty) db =
    map_first Answer.towers (start_towers hmac power conv draws user session stake difficulty db)
play hmac power conv draws id user (towers_reveal session reference tile) db =
    map_first Answer.towers (reveal_towers power draws user session reference tile db)
play hmac power conv draws id user (towers_cashout session reference) db =
    map_first Answer.towers (cash_out_towers draws user session reference db)
play hmac power conv draws id user (towers_open session) db =
    (map_reply Answer.towers_round (get_open_towers power user session db), db)

abbrev pub is_bet : Request → Bool
is_bet (bet_place session slug stake selection) = true
is_bet request = false

-- How the engine's answer follows the play service's, `p`: the same store; for a failure the same
-- reply and no message; in any case the same reply, or an exception if the request is no bet.
pub record Answers (bet : Bool) (p : Reply Answer × Store) (h : Handled Answer) : Type 0 where
  pub same_store : h.store ≡ p.1
  pub same_failure : is_ok p.0 ≡ false → (h.reply ≡ p.0) × (h.sent ≡ [])
  pub same_reply : (h.reply ≡ p.0) ⊎ ((bet ≡ false) × (h.reply ≡ thrown))

Answers-read :
    (reply : Reply Answer) (db : Store)
    → Answers false (reply, db) (record { reply = reply; store = db; sent = [] })
Answers-read reply db = record {
  same_store = refl;
  same_failure = λ h. (refl, refl);
  same_reply = inl refl;
}

module _ {ℓ} {A : Type ℓ} (services : Services) (f : A → Answer) (effects : A → List Effect) where
  then_send-Answers :
      (r : Reply A × Store)
      → Answers false (map_first f r) (map_handled f (then_send services effects r))
  unfolding then_send
  then_send-Answers (ok a, db) = record {
    same_store = refl;
    same_failure = λ h. (cc, cc);
    same_reply = elim (Bool-cases (perform services (effects a)).0) [
      | inl e ↦ inl (rw e refl)
      | inr e ↦ inr (refl, rw e refl)
    ];
  }
  then_send-Answers (fail message code, db) = record {
    same_store = refl;
    same_failure = λ h. (refl, refl);
    same_reply = inl refl;
  }
  then_send-Answers (thrown, db) = record {
    same_store = refl;
    same_failure = λ h. (refl, refl);
    same_reply = inl refl;
  }

  then_try-Answers :
      (r : Reply A × Store)
      → Answers true (map_first f r) (map_handled f (then_try services effects r))
  unfolding then_try
  then_try-Answers (ok a, db) = record {
    same_store = refl;
    same_failure = λ h. (cc, cc);
    same_reply = inl refl;
  }
  then_try-Answers (fail message code, db) = record {
    same_store = refl;
    same_failure = λ h. (refl, refl);
    same_reply = inl refl;
  }
  then_try-Answers (thrown, db) = record {
    same_store = refl;
    same_failure = λ h. (refl, refl);
    same_reply = inl refl;
  }

-- For every command, the engine leaves the store as the play service does. If the play service
-- fails, the engine gives the same failure and sends nothing; in any case it gives the same reply,
-- or the command is no bet and the engine throws.
pub handle-Answers :
    (services : Services) (hmac : Hmac) (power : Power) (conv : Conversions) (draws : Draws)
    (id user : ℕ) (request : Request) (db : Store)
    → Answers
        (is_bet request)
        (play hmac power conv draws id user request db)
        (handle services hmac power conv draws id user request db)
unfolding play handle handle_start_session handle_end_session handle_get_session handle_place_bet
    handle_mines_start handle_mines_reveal handle_mines_cashout handle_mines_open
    handle_towers_start handle_towers_reveal handle_towers_cashout handle_towers_open
handle-Answers services hmac power conv draws id user ping db = Answers-read (ok Answer.pong) db
handle-Answers services hmac power conv draws id user (session_start slug) db =
    then_send-Answers services Answer.game_session _ (start_session draws.now id user slug db)
handle-Answers services hmac power conv draws id user (session_end session) db =
    then_send-Answers services Answer.ended _ (end_session draws.now user session db)
handle-Answers services hmac power conv draws id user (session_get session) db =
    Answers-read (map_reply Answer.game_session (get_session draws.now user session db)) db
handle-Answers services hmac power conv draws id user (bet_place session slug stake selection) db =
    then_try-Answers services Answer.bet _
      (place_bet hmac conv draws user session slug stake selection db)
handle-Answers services hmac power conv draws id user (mines_start session stake mine_count) db =
    then_send-Answers services Answer.mines _
      (start_mines hmac conv draws user session stake mine_count db)
handle-Answers services hmac power conv draws id user (mines_reveal session reference tile) db =
    then_send-Answers services Answer.mines _ (reveal_mines draws user session reference tile db)
handle-Answers services hmac power conv draws id user (mines_cashout session reference) db =
    then_send-Answers services Answer.mines _ (cash_out_mines draws user session reference db)
handle-Answers services hmac power conv draws id user (mines_open session) db =
    Answers-read (map_reply Answer.mines_round (get_open_mines user session db)) db
handle-Answers services hmac power conv draws id user (towers_start session stake difficulty) db =
    then_send-Answers services Answer.towers _
      (start_towers hmac power conv draws user session stake difficulty db)
handle-Answers services hmac power conv draws id user (towers_reveal session reference tile) db =
    then_send-Answers services Answer.towers _
      (reveal_towers power draws user session reference tile db)
handle-Answers services hmac power conv draws id user (towers_cashout session reference) db =
    then_send-Answers services Answer.towers _ (cash_out_towers draws user session reference db)
handle-Answers services hmac power conv draws id user (towers_open session) db =
    Answers-read (map_reply Answer.towers_round (get_open_towers power user session db)) db

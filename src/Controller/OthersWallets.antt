-- ===== src/Controller/OthersWallets.antt =====
-- A command for one player leaves the wallets of all others alone.
use crispy_enigma.Base.{refl, ◌≢◌, ℕ, Option-cases, inl, inr}
use crispy_enigma.Contracts.{GameSlug}
use crispy_enigma.Engine.Rng.{Hmac}
use crispy_enigma.Engine.Towers.{Power}
use crispy_enigma.Engine.Validate.{Conversions}
use crispy_enigma.Wallet.Store.{Store, first_where}
use crispy_enigma.Wallet.Guards.{get_playable_game, has_ended, is_session_of}
use crispy_enigma.Wallet.Bets.{Draws}
use crispy_enigma.Wallet.Sessions.{end_open_sessions, insert_session, start_session, end_session}
use crispy_enigma.Wallet.Isolation.{Keeps, and_then-after, if-after}
use crispy_enigma.Wallet.Isolation.Bets.{place_bet-Keeps, start_mines-Keeps, start_towers-Keeps}
use crispy_enigma.Wallet.Isolation.Rounds.{
  cash_out_mines-Keeps, reveal_mines-Keeps, cash_out_towers-Keeps, reveal_towers-Keeps,
}
use crispy_enigma.Messages.{Services}
use crispy_enigma.Controller.Requests.{
  Request, ping, session_start, session_end, session_get, bet_place, mines_start, mines_reveal,
  mines_cashout, mines_open, towers_start, towers_reveal, towers_cashout, towers_open, handle,
}
use crispy_enigma.Controller.Replies.{play, handle-Answers}

start_session-Keeps :
    (player now id user : ℕ) (slug : GameSlug) (db : Store)
    → Keeps player db (start_session now id user slug db).1
unfolding start_session end_open_sessions insert_session
start_session-Keeps player now id user slug db =
    and_then-after (Keeps player db) (get_playable_game user slug db) db _ refl λ game. refl

end_session-Keeps :
    (player now user session_id : ℕ) (db : Store)
    → Keeps player db (end_session now user session_id db).1
unfolding end_session
end_session-Keeps player now user session_id db =
    elim (Option-cases (first_where (is_session_of user session_id) db.sessions)) [
      | inl e ↦ rw (e, end_session) refl
      | inr (session, e) ↦
          rw (e, end_session) (if-after (Keeps player db) (has_ended session) _ _ refl refl)
    ]

module _ (hmac : Hmac) (power : Power) (conv : Conversions) (draws : Draws) (id player user : ℕ)
    (other : user ≢ player) where
  play-Keeps :
      (request : Request) (db : Store)
      → Keeps player db (play hmac power conv draws id user request db).1
  unfolding play
  play-Keeps ping db = refl
  play-Keeps (session_start slug) db = start_session-Keeps player draws.now id user slug db
  play-Keeps (session_end session) db = end_session-Keeps player draws.now user session db
  play-Keeps (session_get session) db = refl
  play-Keeps (bet_place session slug stake selection) db =
      place_bet-Keeps hmac conv draws player user session other slug stake selection db
  play-Keeps (mines_start session stake mine_count) db =
      start_mines-Keeps hmac conv draws player user session other stake mine_count db
  play-Keeps (mines_reveal session reference tile) db =
      reveal_mines-Keeps draws player user session reference other tile db
  play-Keeps (mines_cashout session reference) db =
      cash_out_mines-Keeps draws player user session reference other db
  play-Keeps (mines_open session) db = refl
  play-Keeps (towers_start session stake difficulty) db =
      start_towers-Keeps hmac conv draws player user session other power stake difficulty db
  play-Keeps (towers_reveal session reference tile) db =
      reveal_towers-Keeps draws player user session reference other power tile db
  play-Keeps (towers_cashout session reference) db =
      cash_out_towers-Keeps draws player user session reference other db
  play-Keeps (towers_open session) db = refl

  -- No command that the engine handles for a player changes, or makes, the wallet of another.
  pub handle-Keeps :
      (services : Services) (request : Request) (db : Store)
      → Keeps player db (handle services hmac power conv draws id user request db).store
  handle-Keeps services request db =
      rw (handle-Answers services hmac power conv draws id user request db).same_store
        (play-Keeps request db)

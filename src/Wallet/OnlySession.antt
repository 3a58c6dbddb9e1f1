-- ===== src/Wallet/OnlySession.antt =====
-- A player has one open session of a game.
use crispy_enigma.Base.{◌≡◌, refl, ℕ, List, [], ◌∷◌, ◌++◌, Bool, true, arith, ==_refl, keep}
use crispy_enigma.Contracts.{GameSlug}
use crispy_enigma.Wallet.Reply.{ok}
use crispy_enigma.Wallet.Store.{Game, Session, Store, update_where}
use crispy_enigma.Wallet.Guards.{get_playable_game}
use crispy_enigma.Wallet.Sessions.{
  is_open_session_of, end_at, end_open_sessions, new_session, insert_session, start_session,
}

keep-end_at :
    (now user game : ℕ) (ss : List Session)
    → keep
        (is_open_session_of user game)
        (update_where (is_open_session_of user game) (end_at now) ss)
      ≡ []
keep-end_at now user game [] = refl
keep-end_at now user game (s ∷ ss) = ground (arith, keep-end_at now user game ss)

keep-append_one :
    (test : Session → Bool) (ss : List Session) (s : Session)
    → keep test ss ≡ []
    → test s ≡ true
    → keep test (ss ++ (s ∷ [])) ≡ s ∷ []
keep-append_one test [] s h k = rw k refl
keep-append_one test (t ∷ ss) s h k = ground (arith, keep-append_one test ss s)

new_session-is_open :
    (now id user game : ℕ) → is_open_session_of user game (new_session now id user game) ≡ true
unfolding new_session
new_session-is_open now id user game = rw (==_refl user, ==_refl game) refl

-- When a session is started on a game, it is the player's only open session of that game.
pub start_session_only :
    (now id user : ℕ) (slug : GameSlug) (db : Store) (game : Game)
    → get_playable_game user slug db ≡ ok game
    → keep (is_open_session_of user game.id) (start_session now id user slug db).1.sessions
      ≡ new_session now id user game.id ∷ []
unfolding start_session insert_session end_open_sessions
start_session_only now id user slug db game h =
    rw (h, start_session)
      (keep-append_one (is_open_session_of user game.id) _ (new_session now id user game.id)
        (keep-end_at now user game.id db.sessions) (new_session-is_open now id user game.id))

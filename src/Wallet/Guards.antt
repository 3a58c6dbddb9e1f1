-- ===== src/Wallet/Guards.antt =====
-- The private helpers of libs/wallet/src/play.service.ts that read and guard: `requireOpenSession`,
-- `getPlayableGame`, `parseStake`, `nextNonce`, `getControlRule`, `consumeForcedRound`.
use crispy_enigma.Base.{
  ◌≡◌, arith, ℕ, ◌+◌, List, Bool, true, false, not, ◌&&◌, ◌||◌, if◌then◌else◌, Option, none, some,
  ◌==◌, length, keep,
}
use crispy_enigma.Base.Int.{pos, ◌-ℤ◌, at_least_zero}
use crispy_enigma.Number.{Number, whole, lt, le, is_finite}
use crispy_enigma.Contracts.{GameSlug}
use crispy_enigma.Engine.Control.{ControlMode, ControlRule, force_win, force_loss, is_positive}
use crispy_enigma.Wallet.Money.{round_money}
use crispy_enigma.Wallet.Reply.{
  Reply, ok, fail, plain, minimum_bet, maximum_bet, validation, unavailable,
}
use crispy_enigma.Wallet.Store.{Game, Session, ControlRow, Store, first_where, update_where}

-- The code of a slug, to compare slugs.
slug_code : GameSlug → ℕ
slug_code GameSlug.dice = 0
slug_code GameSlug.coin_flip = 1
slug_code GameSlug.limbo = 2
slug_code GameSlug.wheel = 3
slug_code GameSlug.mines = 4
slug_code GameSlug.plinko = 5
slug_code GameSlug.towers = 6
slug_code GameSlug.keno = 7

unfoldable pub same_slug : GameSlug → GameSlug → Bool
unfolding slug_code
same_slug a b = slug_code a == slug_code b

abbrev pub has_ended : Session → Bool
has_ended session = elim session.ended_at [ none ↦ false | some _ ↦ true ]

abbrev pub is_session_of : ℕ → ℕ → Session → Bool
is_session_of user session_id s = s.id == session_id && s.user == user

check_session : Session → Game → GameSlug → Reply (Session × Game)
check_session session game slug =
    if has_ended session
    then fail (plain "This session has ended. Open a new one.") validation
    else if not (same_slug game.slug slug)
    then fail (plain "Session belongs to a different game") validation
    else if not game.is_active
    then fail (plain "Game unavailable") unavailable
    else if game.under_maintenance
    then fail (plain "Game is under maintenance") unavailable
    else ok (session, game)

check_row : Session → Option Game → GameSlug → Reply (Session × Game)
unfolding check_session
check_row session none slug = fail (plain "Start a session from the wait room first") validation
check_row session (some game) slug = check_session session game slug

unfoldable pub check_found : Option Session → List Game → GameSlug → Reply (Session × Game)
unfolding check_row
check_found none games slug = fail (plain "Start a session from the wait room first") validation
check_found (some session) games slug =
    check_row session (first_where (λ g. g.id == session.game) games) slug

-- The select joins the session with its game; a session without one gives no row.
unfoldable pub require_open_session : ℕ → ℕ → GameSlug → Store → Reply (Session × Game)
unfolding check_found
require_open_session user session_id slug db =
    check_found (first_where (is_session_of user session_id) db.sessions) db.games slug

check_session_again :
    (s t : Session) (game : Game) (slug : GameSlug) (a : Session × Game)
    → t.ended_at ≡ s.ended_at
    → check_session s game slug ≡ ok a
    → check_session t game slug ≡ ok (t, game)
unfolding check_session
check_session_again s t game slug a same_end h = rw same_end (ground (arith, h))

check_row_again :
    (s t : Session) (o : Option Game) (slug : GameSlug) (a : Session × Game)
    → t.ended_at ≡ s.ended_at
    → check_row s o slug ≡ ok a
    → (b : Session × Game) × (check_row t o slug ≡ ok b)
unfolding check_row
check_row_again s t none slug a same_end h = cc
check_row_again s t (some game) slug a same_end h =
    ((t, game), check_session_again s t game slug a same_end h)

-- With the same game and end, a session with other totals passes the same checks.
pub check_found_again :
    (s t : Session) (games : List Game) (slug : GameSlug) (a : Session × Game)
    → t.game ≡ s.game
    → t.ended_at ≡ s.ended_at
    → check_found (some s) games slug ≡ ok a
    → (b : Session × Game) × (check_found (some t) games slug ≡ ok b)
unfolding check_found
check_found_again s t games slug a same_game same_end h =
    check_row_again s t (first_where (λ g. g.id == t.game) games) slug a same_end (rw same_game h)

check_game : ℕ → Store → Game → Reply Game
check_game user db game =
    if not game.is_active
    then fail (plain "Game unavailable") unavailable
    else if game.under_maintenance
    then fail (plain "Game is under maintenance") unavailable
    else elim (first_where (λ e. e.0 == user && e.1 == game.id) db.excluded) [
      | some _ ↦ fail (plain "Game unavailable") unavailable
      | none ↦ ok game
    ]

unfoldable pub get_playable_game : ℕ → GameSlug → Store → Reply Game
unfolding check_game
get_playable_game user slug db = elim (first_where (λ g. same_slug g.slug slug) db.games) [
  | none ↦ fail (plain "Game unavailable") unavailable
  | some game ↦ check_game user db game
]

unfoldable pub parse_stake : Number → Number → Number → Reply Number
parse_stake stake_input min_bet max_bet =
    let stake = round_money stake_input in
    if not (is_finite stake) || le stake (whole 0)
    then fail (plain "Enter a valid stake") validation
    else if lt stake min_bet
    then fail (minimum_bet min_bet) validation
    else if lt max_bet stake
    then fail (maximum_bet max_bet) validation
    else ok stake

unfoldable pub next_nonce : ℕ → Store → ℕ
next_nonce user db = length (keep (λ b. b.user == user) db.bets) + 1

abbrev pub is_for_game : ℕ → ControlRow → Bool
is_for_game game row = elim row.game [ none ↦ false | some g ↦ g == game ]

abbrev pub covers : ℕ → ℕ → ControlRow → Bool
covers user game row = row.user == user && elim row.game [ none ↦ true | some g ↦ g == game ]

-- A row for the game goes before a row for all games.
unfoldable pub get_control_row : ℕ → ℕ → Store → Option ControlRow
get_control_row user game db =
    elim (first_where (is_for_game game) (keep (covers user game) db.controls)) [
      | some row ↦ some row
      | none ↦ first_where (λ row. true) (keep (covers user game) db.controls)
    ]

abbrev pub row_rule : Option ControlRow → Option ControlRule
row_rule none = none
row_rule (some row) = some row.rule

abbrev pub is_force : ControlMode → Bool
is_force force_win = true
is_force force_loss = true
is_force mode = false

-- `GREATEST(force_rounds - 1, 0)`
abbrev pub use_round : ControlRow → ControlRow
use_round row = record row {
  rule = record row.rule { force_rounds = at_least_zero (row.rule.force_rounds -ℤ pos 1) };
}

unfoldable pub consume_forced_round : Option ControlRow → Store → Store
consume_forced_round none db = db
consume_forced_round (some row) db =
    if is_force row.rule.mode && is_positive row.rule.force_rounds
    then record db { controls = update_where (λ r. r.id == row.id) use_round db.controls }
    else db

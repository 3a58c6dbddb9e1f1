-- ===== src/Wallet/Settled.antt =====
-- A round that is cashed out is not cashed out again.
use crispy_enigma.Base.{
  ◌≡◌, refl, ap, ℕ, Bool, true, false, if◌then◌else◌, Option, none, some, inl, inr, Bool-cases,
  Option-cases, ◌==◌, ==_refl,
}
use crispy_enigma.Base.Int.{ℤ}
use crispy_enigma.Number.{Number, whole}
use crispy_enigma.Contracts.{GameSlug}
use crispy_enigma.Wallet.Money.{cents}
use crispy_enigma.Wallet.Reply.{Reply, ok, ok-injective, fail, thrown, plain, validation, and_then}
use crispy_enigma.Wallet.Store.{Game, Session, Bet, Store, is_open, first_where, update_where}
use crispy_enigma.Wallet.Guards.{require_open_session, is_session_of, check_found_again}
use crispy_enigma.Wallet.Bets.{
  is_named, find_open_bet, checked_open, cash_out_bet, bump, bump_session,
}
use crispy_enigma.Wallet.Rows.{first_where-update}

-- A value comes of a value.
pub and_then-ok {ℓ₁ ℓ₂ ℓ₃} :
    {A : Type ℓ₁} {B : Type ℓ₂} {S : Type ℓ₃} (r : Reply A) (s : S) (next : A → Reply B × S) (b : B)
    → (and_then r s next).0 ≡ ok b
    → (a : A) × (r ≡ ok a) × (and_then r s next ≡ next a)
and_then-ok (ok a) s next b h = (a, refl, refl)
and_then-ok (fail m c) s next b h = cc
and_then-ok thrown s next b h = cc

checked_open_lem : (o : Option Bet) (bet : Bet) → checked_open o ≡ ok bet → o ≡ some bet
checked_open_lem none bet h = cc
checked_open_lem (some b) bet h = elim (Bool-cases (is_open b.status)) [
  | inl here ↦ ap some (ok-injective b bet (rw here at h))
  | inr gone ↦ let impossible = rw gone at h in cc
]

module _ (user session_id bet_reference : ℕ) where
  pub find_open_bet-named :
      (db : Store) (bet : Bet)
      → find_open_bet user session_id bet_reference db ≡ ok bet
      → first_where (is_named user session_id bet_reference) db.bets ≡ some bet
  unfolding find_open_bet
  find_open_bet-named db bet h =
      checked_open_lem (first_where (is_named user session_id bet_reference) db.bets) bet h

  -- Once its row is updated, a cashed-out bet is no open one.
  pub find_open_bet_paid :
      (db after : Store) (bet : Bet) (payout : ℤ) (now : ℕ)
      → first_where (is_named user session_id bet_reference) db.bets ≡ some bet
      → after.bets ≡ update_where (λ b. b.id == bet.id) (cash_out_bet payout now) db.bets
      → find_open_bet user session_id bet_reference after
        ≡ fail (plain "Round already finished") validation
  unfolding find_open_bet cash_out_bet
  find_open_bet_paid db after bet payout now found same =
      let moved =
        first_where-update (is_named user session_id bet_reference) (λ b. b.id == bet.id)
          (cash_out_bet payout now) db.bets λ b. refl in
      rw (same, find_open_bet) (rw (moved, found, ==_refl bet.id) refl)

bumped_game :
    (test : Bool) (staked won : Number) (s : Session)
    → (if test then bump staked won s else s).game ≡ s.game
bumped_game true staked won s = refl
bumped_game false staked won s = refl

bumped_end :
    (test : Bool) (staked won : Number) (s : Session)
    → (if test then bump staked won s else s).ended_at ≡ s.ended_at
bumped_end true staked won s = refl
bumped_end false staked won s = refl

-- Counting a bet leaves a session open.
pub require_open_session_bumped :
    (user session_id : ℕ) (slug : GameSlug) (db after : Store) (staked won : Number)
    (a : Session × Game)
    → after.games ≡ db.games
    → after.sessions ≡ (bump_session session_id staked won db).sessions
    → require_open_session user session_id slug db ≡ ok a
    → (b : Session × Game) × (require_open_session user session_id slug after ≡ ok b)
unfolding require_open_session bump_session
require_open_session_bumped user session_id slug db after staked won a games sessions h =
    elim (Option-cases (first_where (is_session_of user session_id) db.sessions)) [
      | inl e ↦ let impossible = rw (e, require_open_session) at h in cc
      | inr (s, e) ↦
          let moved =
            first_where-update (is_session_of user session_id) (λ t. t.id == session_id)
              (bump staked won) db.sessions λ t. refl in
          rw (games, sessions, require_open_session)
            (rw (moved, e)
              (check_found_again s _ db.games slug a (bumped_game (s.id == session_id) staked won s)
                (bumped_end (s.id == session_id) staked won s) (rw (e, require_open_session) at h)))
    ]

-- The store after a payout, as far as the next cash-out reads it.
pub record IsPaid (db : Store) (now session_id : ℕ) (bet : Bet) (payout : Number) (after : Store)
    : Type 0 where
  pub bets :
      after.bets ≡ update_where (λ b. b.id == bet.id) (cash_out_bet (cents payout) now) db.bets
  pub games : after.games ≡ db.games
  pub sessions : after.sessions ≡ (bump_session session_id (whole 0) payout db).sessions

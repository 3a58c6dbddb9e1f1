-- ===== src/Wallet/Towers/Once.antt =====
-- A Towers round is cashed out once.
use crispy_enigma.Base.{◌≡◌, refl, ℕ, true, some, inl, inr, Bool-cases, ◌==◌, length}
use crispy_enigma.Number.{Number, whole, mul, is_finite}
use crispy_enigma.Contracts.{GameSlug}
use crispy_enigma.Wallet.Money.{cents, round_money, from_cents, from_ten_thousandths}
use crispy_enigma.Wallet.Reply.{ok, fail, plain, validation}
use crispy_enigma.Wallet.Store.{Game, Session, Bet, Store, first_where}
use crispy_enigma.Wallet.Guards.{require_open_session}
use crispy_enigma.Wallet.Writes.{writes-ok}
use crispy_enigma.Wallet.Bets.{pay, change_wallet, Draws, is_named, find_open_bet, bump_session}
use crispy_enigma.Wallet.Towers.{TowersRoundState, picks_of}
use crispy_enigma.Wallet.Towers.Reveal.{pay_towers, cash_out_towers}
use crispy_enigma.Wallet.Settled.{
  and_then-ok, find_open_bet-named, find_open_bet_paid, require_open_session_bumped, IsPaid,
}

module _ (draws : Draws) (user session_id bet_reference : ℕ) (db : Store) where
  refused_towers :
      (a : Session × Game)
      → require_open_session user session_id GameSlug.towers db ≡ ok a
      → find_open_bet user session_id bet_reference db
        ≡ fail (plain "Round already finished") validation
      → cash_out_towers draws user session_id bet_reference db
        ≡ (fail (plain "Round already finished") validation, db)
  unfolding cash_out_towers
  refused_towers a passed finished = rw (passed, cash_out_towers) (rw finished refl)

  pay_towers-is_finite :
      (bet : Bet) (payout : Number) (state : TowersRoundState)
      → (pay_towers draws user session_id bet_reference bet payout db).0 ≡ ok state
      → is_finite payout ≡ true
  unfolding pay_towers
  pay_towers-is_finite bet payout state h = elim (Bool-cases (is_finite payout)) [
    | inl f ↦ f
    | inr big ↦ let impossible = rw (big, pay_towers) at h in cc
  ]

  pay_towers-IsPaid :
      (bet : Bet) (payout : Number) (state : TowersRoundState)
      → (pay_towers draws user session_id bet_reference bet payout db).0 ≡ ok state
      → IsPaid db draws.now session_id bet payout
          (pay_towers draws user session_id bet_reference bet payout db).1
  unfolding pay_towers bump_session
  pay_towers-IsPaid bet payout state h =
      let f = pay_towers-is_finite bet payout state h in
      let paid = change_wallet user (pay (cents payout) (cents (from_cents bet.stake))) db in
      let done = writes-ok draws.rejects _ _ paid state (rw (f, pay_towers) at h) in
      record {
        bets = rw (f, pay_towers) (rw done refl);
        games = rw (f, pay_towers) (rw done refl);
        sessions = rw (f, pay_towers) (rw done refl);
      }

  -- The round that a cash-out has paid.
  cash_out_towers-IsPaid :
      (state : TowersRoundState)
      → (cash_out_towers draws user session_id bet_reference db).0 ≡ ok state
      → (a : Session × Game) × (bet : Bet) × (payout : Number) × (require_open_session user
            session_id GameSlug.towers db
          ≡ ok a)
        × (first_where (is_named user session_id bet_reference) db.bets ≡ some bet)
        × IsPaid db draws.now session_id bet payout
            (cash_out_towers draws user session_id bet_reference db).1
  unfolding cash_out_towers
  cash_out_towers-IsPaid state h =
      let (a, passed, next) =
        and_then-ok (require_open_session user session_id GameSlug.towers db) db _ state h in
      let (bet, found, last) =
        and_then-ok (find_open_bet user session_id bet_reference db) db _ state (rw next at h) in
      let payout = round_money (mul (from_cents bet.stake) (from_ten_thousandths bet.multiplier)) in
      elim (Bool-cases (length (picks_of bet.outcome) == 0)) [
        | inl none_yet ↦ let impossible = rw (next, last, none_yet) at h in cc
        | inr some_yet ↦
            let paid = rw (next, last, some_yet) at h in
            (
              a,
              bet,
              payout,
              passed,
              find_open_bet-named user session_id bet_reference db bet found,
              rw (next, last, some_yet) (pay_towers-IsPaid bet payout state paid),
            )
      ]

-- Once a cash-out of a Towers round has answered with a state, any further cash-out of that round by
-- the same player in the same session fails with "Round already finished" and changes nothing.
pub cash_out_towers_once :
    (draws later : Draws) (user session_id bet_reference : ℕ) (db : Store)
    (state : TowersRoundState)
    → (cash_out_towers draws user session_id bet_reference db).0 ≡ ok state
    → let after = (cash_out_towers draws user session_id bet_reference db).1 in
      cash_out_towers later user session_id bet_reference after
      ≡ (fail (plain "Round already finished") validation, after)
cash_out_towers_once draws later user session_id bet_reference db state h =
    let after = (cash_out_towers draws user session_id bet_reference db).1 in
    let (a, bet, payout, passed, found, paid) =
      cash_out_towers-IsPaid draws user session_id bet_reference db state h in
    let (b, passes) =
      require_open_session_bumped user session_id GameSlug.towers db after (whole 0) payout a
        paid.games paid.sessions passed in
    refused_towers later user session_id bet_reference after b passes (
      find_open_bet_paid user session_id bet_reference db after bet (cents payout) draws.now found
        paid.bets)

-- ===== src/Wallet/Interleaved.antt =====
-- Two cash-outs of a Mines round that both read it before either of them writes it.
use mathlib.Core.Option.{some-injective}
use crispy_enigma.Base.{
  ◌≡◌, refl, ◌∙◌, ap, ℕ, List, [], ◌∷◌, Bool, true, some, inl, inr, Bool-cases, ◌==◌, length,
}
use crispy_enigma.Base.Int.{◌+ℤ◌}
use crispy_enigma.Number.{Number, mul, is_finite}
use crispy_enigma.Contracts.{GameSlug}
use crispy_enigma.Wallet.Money.{cents, round_money, from_cents, from_ten_thousandths}
use crispy_enigma.Wallet.Reply.{ok}
use crispy_enigma.Wallet.Store.{Wallet, Bet, Store, first_where, update_where}
use crispy_enigma.Wallet.Guards.{require_open_session}
use crispy_enigma.Wallet.Writes.{writes-store}
use crispy_enigma.Wallet.Bets.{Draws, pay, balance_of, change_wallet, find_open_bet, bump_session}
use crispy_enigma.Wallet.Rows.{first_where-update}
use crispy_enigma.Wallet.Settled.{and_then-ok}
use crispy_enigma.Wallet.Isolation.{wallet_of}
use crispy_enigma.Wallet.Mines.{MinesRoundState, revealed_of}
use crispy_enigma.Wallet.Mines.Reveal.{pay_mines, cash_out_mines}
use crispy_enigma.Wallet.Mines.Once.{pay_mines-is_finite}

-- What a cash-out pays.
abbrev pub winnings : Bet → Number
winnings b = round_money (mul (from_cents b.stake) (from_ten_thousandths b.multiplier))

module _ (draws : Draws) (user session_id bet_reference : ℕ) (bet : Bet) (db : Store) where
  -- A cash-out that answers has written the payout of the bet it read.
  cash_out_mines-pay_mines :
      (state : MinesRoundState)
      → find_open_bet user session_id bet_reference db ≡ ok bet
      → (cash_out_mines draws user session_id bet_reference db).0 ≡ ok state
      → (is_finite (winnings bet) ≡ true)
        × (cash_out_mines draws user session_id bet_reference db
            ≡ pay_mines draws user session_id bet_reference bet (winnings bet) db)
  unfolding cash_out_mines
  cash_out_mines-pay_mines state found h =
      let (a, passed, next) =
        and_then-ok (require_open_session user session_id GameSlug.mines db) db _ state h in
      elim (Bool-cases (length (revealed_of bet.outcome) == 0)) [
        | inl none_yet ↦ let impossible = rw (next, found, none_yet) at h in cc
        | inr some_yet ↦ (
          pay_mines-is_finite draws user session_id bet_reference db bet (winnings bet) state
              (rw (next, found, some_yet) at h),
          rw (next, found, some_yet) refl,
        )
      ]

  -- The payout reaches the wallet, whichever later statement is rejected.
  pay_mines-wallets :
      is_finite (winnings bet) ≡ true
      → (pay_mines draws user session_id bet_reference bet (winnings bet) db).1.wallets
        ≡ update_where
            (λ w. w.user == user)
            (pay (cents (winnings bet)) (cents (from_cents bet.stake)))
            db.wallets
  unfolding pay_mines bump_session
  pay_mines-wallets f =
      let change = pay (cents (winnings bet)) (cents (from_cents bet.stake)) in
      let paid = change_wallet user change db in
      let P : Store → Type 0 = λ t. t.wallets ≡ paid.wallets in
      rw (f, pay_mines) (writes-store P draws.rejects _ _ paid (refl, (refl, (refl, refl))))

first_where-holds :
    (test : Wallet → Bool) (ws : List Wallet) (w : Wallet)
    → first_where test ws ≡ some w
    → test w ≡ true
first_where-holds test [] w h = cc
first_where-holds test (v ∷ ws) w h = elim (Bool-cases (test v)) [
  | inl e ↦ let same = rw e at h in rw (← some-injective v w same) e
  | inr e ↦ first_where-holds test ws w (rw e at h)
]

paid_wallet :
    (user : ℕ) (bet : Bet) (db after : Store) (w : Wallet)
    → after.wallets
      ≡ update_where
          (λ w. w.user == user)
          (pay (cents (winnings bet)) (cents (from_cents bet.stake)))
          db.wallets
    → wallet_of user db ≡ some w
    → wallet_of user after ≡ some (pay (cents (winnings bet)) (cents (from_cents bet.stake)) w)
unfolding pay
paid_wallet user bet db after w wallets h =
    let change = pay (cents (winnings bet)) (cents (from_cents bet.stake)) in
    let mine : Wallet → Bool = λ w. w.user == user in
    let moved = first_where-update mine mine change db.wallets (λ v. refl) in
    ap (first_where mine) wallets ∙ moved ∙ rw (h, first_where-holds mine db.wallets w h) refl

-- If a cash-out of a Mines round answers with a state, and another one of that round has read the
-- open bet before the first wrote, then what the other one writes afterwards pays the winnings again:
-- the player's balance is higher by twice the winnings than before both.
pub pay_mines_twice :
    (first second : Draws) (user session_id bet_reference : ℕ) (bet : Bet) (w : Wallet) (db : Store)
    (state : MinesRoundState)
    → wallet_of user db ≡ some w
    → find_open_bet user session_id bet_reference db ≡ ok bet
    → (cash_out_mines first user session_id bet_reference db).0 ≡ ok state
    → let after = (cash_out_mines first user session_id bet_reference db).1 in
      balance_of user (pay_mines second user session_id bet_reference bet (winnings bet) after).1
      ≡ some (w.balance +ℤ cents (winnings bet) +ℤ cents (winnings bet))
unfolding pay
pay_mines_twice first second user session_id bet_reference bet w db state mine found h =
    let after = (cash_out_mines first user session_id bet_reference db).1 in
    let (finite, same) =
      cash_out_mines-pay_mines first user session_id bet_reference bet db state found h in
    let once =
      paid_wallet user bet db after w
        (ap (λ r. r.1.wallets) same
          ∙ pay_mines-wallets first user session_id bet_reference bet db finite)
        mine in
    let twice =
      paid_wallet user bet after
        (pay_mines second user session_id bet_reference bet (winnings bet) after).1 _
        (pay_mines-wallets second user session_id bet_reference bet after finite) once in
    rw (twice, balance_of) refl

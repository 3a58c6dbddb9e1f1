-- ===== src/Wallet/CashOutSolvency.antt =====
-- No balance goes below zero by a cash-out.
use mathlib.Core.Option.{some-injective}
use crispy_enigma.Base.{
  ◌≡◌, refl, ap, ℕ, List, [], ◌∷◌, Bool, false, not, Bool-cases, Option, none, some, inl, inr,
  arith, ◌==◌, All, length,
}
use crispy_enigma.Base.Int.{ℤ, pos, negsuc, ◌≤ℤ◌, +ℤ_parts}
use crispy_enigma.Number.{Number, nan, infinite, fin, whole, mul, has_minus, is_finite, to_fixed}
use crispy_enigma.Number.Signs.{decimal_ℤ-has_minus, mul-has_minus, round-has_minus, div-has_minus}
use crispy_enigma.Contracts.{GameSlug}
use crispy_enigma.Wallet.Money.{cents, round_money, from_cents, from_ten_thousandths}
use crispy_enigma.Wallet.Reply.{ok, ok-injective}
use crispy_enigma.Wallet.Store.{Wallet, Bet, Store, is_open, first_where, update_where}
use crispy_enigma.Wallet.Guards.{require_open_session}
use crispy_enigma.Wallet.Writes.{writes-store}
use crispy_enigma.Wallet.Bets.{
  change_wallet, Draws, pay, bump_session, checked_open, is_named, find_open_bet,
}
use crispy_enigma.Wallet.Rows.{and_then-store, if-store}
use crispy_enigma.Wallet.Solvency.{IsCovered, IsSolvent}
use crispy_enigma.Wallet.Mines.{revealed_of}
use crispy_enigma.Wallet.Mines.Reveal.{pay_mines, cash_out_mines}
use crispy_enigma.Wallet.Towers.{picks_of}
use crispy_enigma.Wallet.Towers.Reveal.{pay_towers, cash_out_towers}

-- A bet whose stake and multiplier are not below zero.
abbrev pub IsUnsigned : Bet → Type 0
IsUnsigned b = (pos 0 ≤ℤ b.stake) × (pos 0 ≤ℤ b.multiplier)

cents-has_minus : (x : Number) → has_minus x ≡ false → pos 0 ≤ℤ cents x
unfolding cents to_fixed
cents-has_minus nan h = omega arith
cents-has_minus (infinite s) h = omega arith
cents-has_minus (fin (pos m)) h = omega arith
cents-has_minus (fin (negsuc m)) h = cc

hundred : has_minus (whole 100) ≡ false
unfolding whole
hundred = refl

-- What a cash-out pays.
abbrev winnings : Bet → Number
winnings b = round_money (mul (from_cents b.stake) (from_ten_thousandths b.multiplier))

unsigned_winnings :
    (stake multiplier : ℤ)
    → pos 0 ≤ℤ stake
    → pos 0 ≤ℤ multiplier
    → has_minus (round_money (mul (from_cents stake) (from_ten_thousandths multiplier))) ≡ false
unfolding round_money from_cents from_ten_thousandths
unsigned_winnings (pos s) (pos m) h k =
    let product = mul-has_minus _ _ (decimal_ℤ-has_minus s 100) (decimal_ℤ-has_minus m 10_000) in
    div-has_minus _ (whole 100) (round-has_minus _ (mul-has_minus _ (whole 100) product hundred))
      hundred
unsigned_winnings (negsuc s) m h k = absurd (omega arith)
unsigned_winnings (pos s) (negsuc m) h k = absurd (omega arith)

pay-All :
    (user : ℕ) (payout amount : ℤ) (ws : List Wallet)
    → pos 0 ≤ℤ payout
    → All IsCovered ws
    → All IsCovered (update_where (λ w. w.user == user) (pay payout amount) ws)
unfolding pay
pay-All user payout amount [] h p = tt
pay-All user payout amount (w ∷ ws) h p =
    (ground (arith, +ℤ_parts w.balance payout, p.0), pay-All user payout amount ws h p.1)

first_where-All :
    (test : Bet → Bool) (bs : List Bet) (b : Bet)
    → All IsUnsigned bs
    → first_where test bs ≡ some b
    → IsUnsigned b
first_where-All test [] b p h = cc
first_where-All test (c ∷ cs) b p h = elim (Bool-cases (test c)) [
  | inl e ↦ let same = rw e at h in rw (← some-injective c b same) p.0
  | inr e ↦ let rest = rw e at h in first_where-All test cs b p.1 rest
]

checked_open-some : (o : Option Bet) (b : Bet) → checked_open o ≡ ok b → o ≡ some b
checked_open-some none b h = cc
checked_open-some (some c) b h = elim (Bool-cases (is_open c.status)) [
  | inl e ↦ ap some (ok-injective c b (rw e at h))
  | inr e ↦ let impossible = rw e at h in cc
]

find_open_bet-IsUnsigned :
    (user session_id bet_reference : ℕ) (db : Store) (b : Bet)
    → All IsUnsigned db.bets
    → find_open_bet user session_id bet_reference db ≡ ok b
    → IsUnsigned b
unfolding find_open_bet
find_open_bet-IsUnsigned user session_id bet_reference db b p h =
    first_where-All (is_named user session_id bet_reference) db.bets b p
      (checked_open-some (first_where (is_named user session_id bet_reference) db.bets) b h)

module _ (draws : Draws) (user session_id bet_reference : ℕ) (db : Store) where
  pay_mines-IsSolvent :
      (b : Bet)
      → IsUnsigned b
      → IsSolvent db
      → IsSolvent (pay_mines draws user session_id bet_reference b (winnings b) db).1
  unfolding pay_mines bump_session
  pay_mines-IsSolvent b k p =
      let payout = cents (winnings b) in
      let amount = cents (from_cents b.stake) in
      let q =
        pay-All user payout amount db.wallets
          (cents-has_minus (winnings b) (unsigned_winnings b.stake b.multiplier k.0 k.1)) p in
      if-store IsSolvent (not (is_finite (winnings b))) _ _ (λ e. p)
        λ e.
          writes-store IsSolvent draws.rejects _ _ (change_wallet user (pay payout amount) db)
            (q, (q, (q, q)))

  -- If no balance is negative and no bet has a negative stake or multiplier, no balance is negative
  -- after a cash-out of a Mines round, on whichever branch.
  pub cash_out_mines-IsSolvent :
      All IsUnsigned db.bets
      → IsSolvent db
      → IsSolvent (cash_out_mines draws user session_id bet_reference db).1
  unfolding cash_out_mines
  cash_out_mines-IsSolvent u p =
      and_then-store IsSolvent (require_open_session user session_id GameSlug.mines db) db _ p
        λ a e.
          and_then-store IsSolvent (find_open_bet user session_id bet_reference db) db _ p λ b f.
            if-store IsSolvent (length (revealed_of b.outcome) == 0) _ _ (λ g. p)
              λ g.
                pay_mines-IsSolvent b
                  (find_open_bet-IsUnsigned user session_id bet_reference db b u f) p

  pay_towers-IsSolvent :
      (b : Bet)
      → IsUnsigned b
      → IsSolvent db
      → IsSolvent (pay_towers draws user session_id bet_reference b (winnings b) db).1
  unfolding pay_towers bump_session
  pay_towers-IsSolvent b k p =
      let payout = cents (winnings b) in
      let amount = cents (from_cents b.stake) in
      let q =
        pay-All user payout amount db.wallets
          (cents-has_minus (winnings b) (unsigned_winnings b.stake b.multiplier k.0 k.1)) p in
      if-store IsSolvent (not (is_finite (winnings b))) _ _ (λ e. p)
        λ e.
          writes-store IsSolvent draws.rejects _ _ (change_wallet user (pay payout amount) db)
            (q, (q, (q, q)))

  -- If no balance is negative and no bet has a negative stake or multiplier, no balance is negative
  -- after a cash-out of a Towers round, on whichever branch.
  pub cash_out_towers-IsSolvent :
      All IsUnsigned db.bets
      → IsSolvent db
      → IsSolvent (cash_out_towers draws user session_id bet_reference db).1
  unfolding cash_out_towers
  cash_out_towers-IsSolvent u p =
      and_then-store IsSolvent (require_open_session user session_id GameSlug.towers db) db _ p
        λ a e.
          and_then-store IsSolvent (find_open_bet user session_id bet_reference db) db _ p λ b f.
            if-store IsSolvent (length (picks_of b.outcome) == 0) _ _ (λ g. p)
              λ g.
                pay_towers-IsSolvent b
                  (find_open_bet-IsUnsigned user session_id bet_reference db b u f) p

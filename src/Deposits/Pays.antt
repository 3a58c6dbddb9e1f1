-- ===== src/Deposits/Pays.antt =====
-- A deposit that can be credited is, with its amount.
use mathlib.Core.Option.{some-injective}
use crispy_enigma.Base.{
  ◌≡◌, refl, ◌∙◌, ap, ℕ, ◌^◌, ◌<◌, List, Bool, true, Option, none, some, inl, inr, Bool-cases,
  Option-cases, [], ◌∷◌, ◌==◌, ==_refl,
}
use crispy_enigma.Base.Int.{ℤ, magnitude}
use crispy_enigma.Wallet.Money.{cents, from_cents}
use crispy_enigma.Wallet.Columns.{cents-from_cents}
use crispy_enigma.Wallet.Store.{Wallet, Store, first_where, new_wallet}
use crispy_enigma.Wallet.Rows.{first_where-update}
use crispy_enigma.Wallet.Isolation.{wallet_of}
use crispy_enigma.Deposits.Types.{Metadata, Deposit}
use crispy_enigma.Deposits.Credit.{
  has_id, can_credit, change_deposits, ensure_wallet, add_deposit, claim_row, claim, finish,
  pay_deposit, credit_read, credit_deposit,
}
use crispy_enigma.Deposits.CreditMoves.{first_where-append_one, finish-noted, noted_at}

-- The player's wallet, or the one that is made.
abbrev pub or_new : ℕ → Option Wallet → Wallet
or_new user none = new_wallet user
or_new user (some w) = w

ensure_wallet-wallet_of :
    (user : ℕ) (db : Store)
    → wallet_of user (ensure_wallet user db) ≡ some (or_new user (wallet_of user db))
unfolding ensure_wallet new_wallet
ensure_wallet-wallet_of user db = elim (Option-cases (wallet_of user db)) [
  | inl e ↦
      rw (e, ensure_wallet)
        (first_where-append_one (λ w. w.user == user) db.wallets (new_wallet user) e (==_refl user))
  | inr (w, e) ↦ rw (e, ensure_wallet) e
]

found-test :
    (test : Wallet → Bool) (ws : List Wallet) (w : Wallet)
    → first_where test ws ≡ some w
    → test w ≡ true
found-test test [] w h = cc
found-test test (v ∷ ws) w h = elim (Bool-cases (test v)) [
  | inl e ↦ let same = rw e at h in rw (← some-injective v w same) e
  | inr e ↦ let rest = rw e at h in found-test test ws w rest
]

pay_deposit-wallet_of :
    (claimed : Deposit) (db : Store)
    → wallet_of claimed.user (pay_deposit claimed db)
      ≡ some (
          add_deposit
            (cents (from_cents claimed.amount))
            (or_new claimed.user (wallet_of claimed.user db)))
unfolding pay_deposit add_deposit
pay_deposit-wallet_of claimed db =
    let mine = λ (w : Wallet). w.user == claimed.user in
    let paid = add_deposit (cents (from_cents claimed.amount)) in
    let made = (ensure_wallet claimed.user db).wallets in
    let found = ensure_wallet-wallet_of claimed.user db in
    let its = found-test mine made (or_new claimed.user (wallet_of claimed.user db)) found in
    first_where-update mine mine paid made (λ v. refl) ∙ rw (found, its) refl

finish-some :
    (id : ℕ) (current claimed : Deposit) (db : Store) (w : Wallet)
    → wallet_of claimed.user db ≡ some w
    → (d : Deposit) × ((finish id current claimed db).0 ≡ some d)
unfolding finish
finish-some id current claimed db w e =
    elim (Option-cases (first_where (has_id id) (noted_at id w db.deposits))) [
      | inl k ↦ (claimed, rw (e, finish) (rw k refl))
      | inr (d, k) ↦ (d, rw (e, finish) (rw k refl))
    ]

-- A deposit that is pending or in review, of less than 2 ^ 52 cents, is credited: the call answers
-- with a deposit, and the player's wallet, made if need be, gains exactly the deposit's amount.
pub credit_deposit_pays :
    (now id : ℕ) (extra : Metadata → Metadata) (current : Deposit) (db : Store)
    → first_where (can_credit id) db.deposits ≡ some current
    → magnitude current.amount < 2 ^ 52
    → ((d : Deposit) × ((credit_deposit now id extra db).0 ≡ some d))
      × (wallet_of current.user (credit_deposit now id extra db).1
          ≡ some (add_deposit current.amount (or_new current.user (wallet_of current.user db))))
unfolding credit_deposit credit_read claim claim_row
credit_deposit_pays now id extra current db e small =
    let claimed = claim_row now extra current.metadata current in
    let taken = change_deposits (can_credit id) (claim_row now extra current.metadata) db in
    let paid = pay_deposit-wallet_of claimed taken in
    let (d, credited) = finish-some id current claimed (pay_deposit claimed taken) _ paid in
    let (_, wallets) = finish-noted id current claimed (pay_deposit claimed taken) _ paid in
    let exact = cents-from_cents current.amount small in
    (
      (d, rw (e, credit_deposit) (rw (e, credit_read) credited)),
      rw (e, credit_deposit)
          (rw (e, credit_read)
            (ap (λ (ws : List Wallet). first_where (λ w. w.user == current.user) ws) wallets
              ∙ (paid
                  ∙ ap
                      (λ (z : ℤ).
                        some (add_deposit z (or_new current.user (wallet_of current.user db))))
                      exact))),
    )

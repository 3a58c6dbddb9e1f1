-- ===== src/Wallet/Funds.antt =====
-- The money of all wallets, free and locked.
use mathlib.Core.Option.{some-injective}
use crispy_enigma.Base.{
  ◌≡◌, refl, sym, ◌∙◌, ℕ, List, [], ◌∷◌, ◌++◌, Bool, some, inl, inr, Option-cases, arith, ◌==◌,
}
use crispy_enigma.Base.Int.{ℤ, pos, ◌+ℤ◌, int_laws}
use crispy_enigma.Wallet.Store.{Wallet, Store, first_where, update_where, new_wallet, get_or_create}
use crispy_enigma.Wallet.Bets.{hold, debit, can_pay}

abbrev pub wallet_funds : Wallet → ℤ
wallet_funds w = w.balance +ℤ w.locked_balance

-- The sum over the wallets of the balance and the locked balance.
unfoldable pub funds : List Wallet → ℤ
funds [] = pos 0
funds (w ∷ ws) = wallet_funds w +ℤ funds ws

pub funds-update :
    (test : Wallet → Bool) (change : Wallet → Wallet) (ws : List Wallet)
    → ((w : Wallet) → wallet_funds (change w) ≡ wallet_funds w)
    → funds (update_where test change ws) ≡ funds ws
unfolding funds
funds-update test change [] h = refl
funds-update test change (w ∷ ws) h = ground (arith, h w, funds-update test change ws h)

add_assoc : (a b c : ℤ) → a +ℤ (b +ℤ c) ≡ (a +ℤ b) +ℤ c
add_assoc a b c = omega int_laws

zero-add : (a : ℤ) → a ≡ pos 0 +ℤ a
zero-add a = omega int_laws

add-zero : (a : ℤ) → a +ℤ pos 0 ≡ a
add-zero a = omega int_laws

pub funds-append : (ws vs : List Wallet) → funds (ws ++ vs) ≡ funds ws +ℤ funds vs
unfolding funds
funds-append [] vs = zero-add (funds vs)
funds-append (w ∷ ws) vs =
    rw (funds-append ws vs) (add_assoc (wallet_funds w) (funds ws) (funds vs))

pub hold-funds : (amount : ℤ) (w : Wallet) → wallet_funds (hold amount w) ≡ wallet_funds w
unfolding hold
hold-funds amount w = omega int_laws

funds_new : (user : ℕ) → funds (new_wallet user ∷ []) ≡ pos 0
unfolding funds new_wallet ◌+ℤ◌
funds_new user = refl

pub get_or_create-funds :
    (user : ℕ) (db : Store) → funds (get_or_create user db).1.wallets ≡ funds db.wallets
unfolding get_or_create
get_or_create-funds user db = elim (Option-cases (first_where (λ w. w.user == user) db.wallets)) [
  | inl e ↦
      rw (e, get_or_create)
        (funds-append db.wallets (new_wallet user ∷ [])
          ∙ rw (funds_new user) (add-zero (funds db.wallets)))
  | inr (w, e) ↦ rw (e, get_or_create) refl
]

-- A hold that is granted moves money, and makes and loses none.
pub debit-funds :
    (user : ℕ) (amount : ℤ) (db held : Store)
    → debit user amount (hold amount) db ≡ some held
    → funds held.wallets ≡ funds db.wallets
unfolding debit
debit-funds user amount db held h =
    elim (Option-cases (first_where (can_pay user amount) db.wallets)) [
      | inl e ↦ let impossible = rw (e, debit) at h in cc
      | inr (w, e) ↦
          let same = rw (e, debit) at h in
          rw (sym (some-injective _ held same))
            (funds-update (can_pay user amount) (hold amount) db.wallets (hold-funds amount))
    ]

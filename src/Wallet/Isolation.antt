-- ===== src/Wallet/Isolation.antt =====
-- An operation of the play service for one player leaves the wallets of all others alone.
pub mod Bets
pub mod Rounds
use mathlib.Core.Option.{some-injective}
use crispy_enigma.Base.{
  ◌≡◌, refl, sym, ◌∙◌, ap, ◌≢◌, ℕ, Bool, true, false, not, ◌&&◌, Bool-cases, if◌then◌else◌, Option,
  none, some, Option-cases, inl, inr, List, [], ◌∷◌, ◌++◌, length, ◌==◌, arith,
}
use crispy_enigma.Base.Int.{ℤ}
use crispy_enigma.Number.{Number, sub, mul, is_finite}
use crispy_enigma.Contracts.{GameSlug, Difficulty, Selection, RoundResult, is_instant_game}
use crispy_enigma.Engine.Rng.{Hmac}
use crispy_enigma.Wallet.Reply.{Reply, ok, fail, thrown, and_then}
use crispy_enigma.Wallet.Store.{
  Wallet, Game, Store, get_or_create, new_wallet, first_where, update_where,
}
use crispy_enigma.Wallet.Bets.{can_pay, debit, change_wallet}

-- The wallet that the service reads for a player.
abbrev pub wallet_of : ℕ → Store → Option Wallet
wallet_of player db = first_where (λ w. w.user == player) db.wallets

-- The wallet of `player` is the same in both stores.
abbrev pub Keeps : ℕ → Store → Store → Type 0
Keeps player s t = wallet_of player t ≡ wallet_of player s

-- A change that gives the wallet to nobody else.
abbrev pub KeepsOwner : (Wallet → Wallet) → Type 0
KeepsOwner change = (w : Wallet) → (change w).user ≡ w.user

module _ (player : ℕ) where
  update_where-wallet_of :
      (test : Wallet → Bool) (change : Wallet → Wallet) (ws : List Wallet)
      → KeepsOwner change
      → ((w : Wallet) → test w ≡ true → w.user ≢ player)
      → first_where (λ w. w.user == player) (update_where test change ws)
        ≡ first_where (λ w. w.user == player) ws
  update_where-wallet_of test change [] k h = refl
  update_where-wallet_of test change (w ∷ ws) k h = elim (Bool-cases (test w)) [
    | inl e ↦
        let rest = update_where-wallet_of test change ws k h in
        let other : (w.user == player) ≡ false = grind (arith, h w e) in rw (e, k w, other) rest
    | inr e ↦ rw e (
        ap (λ o. if w.user == player then some w else o)
          (update_where-wallet_of test change ws k h))
  ]

  append-wallet_of :
      (ws : List Wallet) (w : Wallet)
      → w.user ≢ player
      → first_where (λ w. w.user == player) (ws ++ (w ∷ []))
        ≡ first_where (λ w. w.user == player) ws
  append-wallet_of [] w h =
      let other : (w.user == player) ≡ false = grind (arith, h) in rw other refl
  append-wallet_of (v ∷ ws) w h =
      ap (λ o. if v.user == player then some v else o) (append-wallet_of ws w h)

module _ (player user : ℕ) (other : user ≢ player) where
  pub change_wallet-Keeps :
      (change : Wallet → Wallet) (db : Store)
      → KeepsOwner change
      → Keeps player db (change_wallet user change db)
  change_wallet-Keeps change db k =
      update_where-wallet_of player (λ w. w.user == user) change db.wallets k
        λ w e. grind (arith, other)

  pub debit-Keeps :
      (amount : ℤ) (change : Wallet → Wallet) (s t : Store)
      → KeepsOwner change
      → debit user amount change s ≡ some t
      → Keeps player s t
  unfolding debit
  debit-Keeps amount change s t k h =
      elim (Option-cases (first_where (can_pay user amount) s.wallets)) [
        | inl e ↦ let impossible = rw (e, debit) at h in cc
        | inr (w, e) ↦
            let same = rw (e, debit) at h in
            rw (sym (some-injective _ t same)) (
              update_where-wallet_of player (can_pay user amount) change s.wallets k
                λ w e. grind (arith, other))
      ]

  pub get_or_create-Keeps : (db : Store) → Keeps player db (get_or_create user db).1
  unfolding get_or_create new_wallet
  get_or_create-Keeps db = elim (Option-cases (wallet_of user db)) [
    | inl e ↦ rw (e, get_or_create) (append-wallet_of player db.wallets (new_wallet user) other)
    | inr (w, e) ↦ rw (e, get_or_create) refl
  ]

-- What holds of the store after each way through an operation holds after it.
module _ {ℓ₁ ℓ₂ κ} {A : Type ℓ₁} {B : Type ℓ₂} (P : Store → Type κ) where
  pub and_then-after :
      (r : Reply A) (u : Store) (next : A → Reply B × Store)
      → P u
      → ((a : A) → P (next a).1)
      → P (and_then r u next).1
  and_then-after (ok a) u next p q = q a
  and_then-after (fail m c) u next p q = p
  and_then-after thrown u next p q = p

pub if-after {ℓ κ} :
    {B : Type ℓ} (P : Store → Type κ) (test : Bool) (a b : Reply B × Store)
    → P a.1
    → P b.1
    → P (if test then a else b).1
if-after P true a b p q = p
if-after P false a b p q = q

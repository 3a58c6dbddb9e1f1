-- ===== src/Wallet/Solvency.antt =====
-- No balance goes below zero at the start of a round.
use mathlib.Core.Option.{some-injective}
use crispy_enigma.Base.{
  ◌≡◌, sym, ℕ, List, [], ◌∷◌, ◌++◌, if◌then◌else◌, some, inl, inr, Option-cases, arith, ◌==◌, All,
}
use crispy_enigma.Base.Int.{ℤ, pos, ◌≤ℤ◌, -ℤ_parts}
use crispy_enigma.Number.{Number}
use crispy_enigma.Contracts.{Difficulty}
use crispy_enigma.Engine.Rng.{Hmac}
use crispy_enigma.Engine.Towers.{Power}
use crispy_enigma.Engine.Validate.{Json, Conversions}
use crispy_enigma.Wallet.Money.{cents}
use crispy_enigma.Wallet.Store.{
  Wallet, Game, Store, first_where, update_where, new_wallet, get_or_create,
}
use crispy_enigma.Wallet.Writes.{writes-store}
use crispy_enigma.Wallet.Bets.{Draws, hold, debit, can_pay, bump_session}
use crispy_enigma.Wallet.Mines.{open_mines, start_mines}
use crispy_enigma.Wallet.Towers.{open_towers, start_towers}
use crispy_enigma.Wallet.Starts.{start_mines-store, start_towers-store}

abbrev pub IsCovered : Wallet → Type 0
IsCovered w = pos 0 ≤ℤ w.balance

abbrev pub IsSolvent : Store → Type 0
IsSolvent db = All IsCovered db.wallets

All-append : (ws vs : List Wallet) → All IsCovered ws → All IsCovered vs → All IsCovered (ws ++ vs)
All-append [] vs p q = q
All-append (w ∷ ws) vs p q = (p.0, All-append ws vs p.1 q)

hold-IsCovered :
    (user : ℕ) (amount : ℤ) (w : Wallet)
    → IsCovered w
    → IsCovered (if can_pay user amount w then hold amount w else w)
unfolding hold
hold-IsCovered user amount w p = ground (arith, -ℤ_parts w.balance amount)

hold-All :
    (user : ℕ) (amount : ℤ) (ws : List Wallet)
    → All IsCovered ws
    → All IsCovered (update_where (can_pay user amount) (hold amount) ws)
hold-All user amount [] p = tt
hold-All user amount (w ∷ ws) p = (hold-IsCovered user amount w p.0, hold-All user amount ws p.1)

pub get_or_create-IsSolvent :
    (user : ℕ) (db : Store) → IsSolvent db → IsSolvent (get_or_create user db).1
unfolding get_or_create new_wallet
get_or_create-IsSolvent user db p =
    elim (Option-cases (first_where (λ w. w.user == user) db.wallets)) [
      | inl e ↦
          rw (e, get_or_create) (All-append db.wallets (new_wallet user ∷ []) p (omega arith, tt))
      | inr (w, e) ↦ rw (e, get_or_create) p
    ]

debit-IsSolvent :
    (user : ℕ) (amount : ℤ) (db held : Store)
    → debit user amount (hold amount) db ≡ some held
    → IsSolvent db
    → IsSolvent held
unfolding debit
debit-IsSolvent user amount db held h p =
    elim (Option-cases (first_where (can_pay user amount) db.wallets)) [
      | inl e ↦ let impossible = rw (e, debit) at h in cc
      | inr (w, e) ↦
          let same = rw (e, debit) at h in
          rw (sym (some-injective _ held same)) (hold-All user amount db.wallets p)
    ]

module _ (hmac : Hmac) (conv : Conversions) (draws : Draws) (user session_id : ℕ) where
  open_mines-IsSolvent :
      (game : Game) (stake : Number) (mine_count : ℕ) (wallet : Wallet) (db : Store)
      → IsSolvent db
      → IsSolvent (open_mines hmac conv draws user session_id game stake mine_count wallet db).1
  unfolding bump_session open_mines
  open_mines-IsSolvent game stake mine_count wallet db p =
      elim (Option-cases (debit user (cents stake) (hold (cents stake)) db)) [
        | inl e ↦ rw (e, open_mines) p
        | inr (held, e) ↦
            let q = debit-IsSolvent user (cents stake) db held e p in
            rw (e, open_mines) (writes-store IsSolvent draws.rejects _ _ held (q, (q, (q, q))))
      ]

  open_towers-IsSolvent :
      (power : Power) (game : Game) (stake : Number) (difficulty : Difficulty) (wallet : Wallet)
      (db : Store)
      → IsSolvent db
      → IsSolvent
          (open_towers hmac power conv draws user session_id game stake difficulty wallet db).1
  unfolding bump_session open_towers
  open_towers-IsSolvent power game stake difficulty wallet db p =
      elim (Option-cases (debit user (cents stake) (hold (cents stake)) db)) [
        | inl e ↦ rw (e, open_towers) p
        | inr (held, e) ↦
            let q = debit-IsSolvent user (cents stake) db held e p in
            rw (e, open_towers) (writes-store IsSolvent draws.rejects _ _ held (q, (q, (q, q))))
      ]

  -- If no balance is negative, none is after the start of a Mines round, on whichever branch.
  pub start_mines-IsSolvent :
      (stake_input mine_count_input : Number) (db : Store)
      → IsSolvent db
      → IsSolvent (start_mines hmac conv draws user session_id stake_input mine_count_input db).1
  start_mines-IsSolvent stake_input mine_count_input db p =
      let q = get_or_create-IsSolvent user db p in
      start_mines-store hmac conv draws IsSolvent user session_id db stake_input mine_count_input p
        q λ game stake mine_count _. open_mines-IsSolvent game stake mine_count _ _ q

  -- If no balance is negative, none is after the start of a Towers round, on whichever branch.
  pub start_towers-IsSolvent :
      (power : Power) (stake_input : Number) (difficulty_input : Json) (db : Store)
      → IsSolvent db
      → IsSolvent
          (start_towers hmac power conv draws user session_id stake_input difficulty_input db).1
  start_towers-IsSolvent power stake_input difficulty_input db p =
      let q = get_or_create-IsSolvent user db p in
      start_towers-store hmac conv draws IsSolvent user session_id db power stake_input
        difficulty_input p q
        λ game stake difficulty _. open_towers-IsSolvent power game stake difficulty _ _ q

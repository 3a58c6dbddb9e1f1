-- ===== src/Wallet/Starts.antt =====
-- The start of a Mines or a Towers round, on every branch.
use crispy_enigma.Base.{◌≡◌, refl, ◌∙◌, ℕ, false, inl, inr, Option-cases}
use crispy_enigma.Number.{Number}
use crispy_enigma.Contracts.{GameSlug, Difficulty}
use crispy_enigma.Engine.Rng.{Hmac}
use crispy_enigma.Engine.Towers.{Power}
use crispy_enigma.Engine.Validate.{Json, Conversions}
use crispy_enigma.Wallet.Money.{cents}
use crispy_enigma.Wallet.Store.{Wallet, Game, Store, get_or_create}
use crispy_enigma.Wallet.Guards.{require_open_session, parse_stake}
use crispy_enigma.Wallet.Writes.{writes-store}
use crispy_enigma.Wallet.Bets.{Draws, hold, debit, has_open_bet, bump_session}
use crispy_enigma.Wallet.Rows.{and_then-store, if-store}
use crispy_enigma.Wallet.Funds.{funds, debit-funds, get_or_create-funds}
use crispy_enigma.Wallet.Mines.{open_mines, start_mines_with, start_mines, validated_mines}
use crispy_enigma.Wallet.Towers.{open_towers, start_towers_with, start_towers, validated_towers}

abbrev pub SameFunds : Store → Store → Type 0
SameFunds db after = funds after.wallets ≡ funds db.wallets

-- A start leaves the store, adds the user's wallet, or opens the round: what all three keep, it
-- keeps.
module _ {κ} (hmac : Hmac) (conv : Conversions) (draws : Draws) (P : Store → Type κ)
    (user session_id : ℕ) (db : Store) where
  pub start_mines-store :
      (stake_input mine_count_input : Number)
      → P db
      → P (get_or_create user db).1
      → ((game : Game) (stake : Number) (mine_count : ℕ)
          → has_open_bet user game.id db ≡ false
          → P
              (open_mines hmac conv draws user session_id game stake mine_count
                (get_or_create user db).0
                (get_or_create user db).1).1)
      → P (start_mines hmac conv draws user session_id stake_input mine_count_input db).1
  unfolding start_mines start_mines_with
  start_mines-store stake_input mine_count_input p q r =
      and_then-store P (require_open_session user session_id GameSlug.mines db) db _ p λ a _.
        let game : Game = a.1 in
        and_then-store P (validated_mines conv mine_count_input) db _ p λ mine_count _.
          and_then-store P (parse_stake stake_input game.min_bet game.max_bet) db _ p λ stake _.
            if-store P (has_open_bet user game.id db) _ _ (λ _. p)
              λ none_open.
                if-store P (get_or_create user db).0.is_locked _ _ (λ _. q)
                  λ _. r game stake mine_count none_open

  pub start_towers-store :
      (power : Power) (stake_input : Number) (difficulty_input : Json)
      → P db
      → P (get_or_create user db).1
      → ((game : Game) (stake : Number) (difficulty : Difficulty)
          → has_open_bet user game.id db ≡ false
          → P
              (open_towers hmac power conv draws user session_id game stake difficulty
                (get_or_create user db).0
                (get_or_create user db).1).1)
      → P (start_towers hmac power conv draws user session_id stake_input difficulty_input db).1
  unfolding start_towers start_towers_with
  start_towers-store power stake_input difficulty_input p q r =
      and_then-store P (require_open_session user session_id GameSlug.towers db) db _ p λ a _.
        let game : Game = a.1 in
        and_then-store P (validated_towers conv difficulty_input) db _ p λ difficulty _.
          and_then-store P (parse_stake stake_input game.min_bet game.max_bet) db _ p λ stake _.
            if-store P (has_open_bet user game.id db) _ _ (λ _. p)
              λ none_open.
                if-store P (get_or_create user db).0.is_locked _ _ (λ _. q)
                  λ _. r game stake difficulty none_open

module _ (hmac : Hmac) (conv : Conversions) (draws : Draws) (user session_id : ℕ) where
  open_mines-funds :
      (game : Game) (stake : Number) (mine_count : ℕ) (wallet : Wallet) (db : Store)
      → SameFunds db (open_mines hmac conv draws user session_id game stake mine_count wallet db).1
  unfolding bump_session open_mines
  open_mines-funds game stake mine_count wallet db =
      elim (Option-cases (debit user (cents stake) (hold (cents stake)) db)) [
        | inl e ↦ rw (e, open_mines) refl
        | inr (held, e) ↦
            let p = debit-funds user (cents stake) db held e in
            rw (e, open_mines) (writes-store (SameFunds db) draws.rejects _ _ held (p, (p, (p, p))))
      ]

  open_towers-funds :
      (power : Power) (game : Game) (stake : Number) (difficulty : Difficulty) (wallet : Wallet)
      (db : Store)
      → SameFunds db
          (open_towers hmac power conv draws user session_id game stake difficulty wallet db).1
  unfolding bump_session open_towers
  open_towers-funds power game stake difficulty wallet db =
      elim (Option-cases (debit user (cents stake) (hold (cents stake)) db)) [
        | inl e ↦ rw (e, open_towers) refl
        | inr (held, e) ↦
            let p = debit-funds user (cents stake) db held e in
            rw (e, open_towers)
              (writes-store (SameFunds db) draws.rejects _ _ held (p, (p, (p, p))))
      ]

  -- Whatever the branch on which it ends, the start of a Mines round leaves the sum of all balances
  -- and locked balances as it was.
  pub start_mines-funds :
      (stake_input mine_count_input : Number) (db : Store)
      → funds
          (start_mines hmac conv draws user session_id stake_input mine_count_input db).1.wallets
        ≡ funds db.wallets
  start_mines-funds stake_input mine_count_input db =
      start_mines-store hmac conv draws (SameFunds db) user session_id db stake_input
        mine_count_input refl (get_or_create-funds user db)
        λ game stake mine_count _.
          open_mines-funds game stake mine_count _ _ ∙ get_or_create-funds user db

  -- Whatever the branch on which it ends, the start of a Towers round leaves the sum of all balances
  -- and locked balances as it was.
  pub start_towers-funds :
      (power : Power) (stake_input : Number) (difficulty_input : Json) (db : Store)
      → funds
          (start_towers hmac power conv draws user session_id stake_input difficulty_input
            db).1.wallets
        ≡ funds db.wallets
  start_towers-funds power stake_input difficulty_input db =
      start_towers-store hmac conv draws (SameFunds db) user session_id db power stake_input
        difficulty_input refl (get_or_create-funds user db)
        λ game stake difficulty _.
          open_towers-funds power game stake difficulty _ _ ∙ get_or_create-funds user db

-- ===== src/Wallet/Atomic.antt =====
-- What an operation that fails leaves behind.
use crispy_enigma.Base.{
  ◌≡◌, refl, ◌⊎◌, inl, inr, ℕ, Bool, true, false, not, if◌then◌else◌, Option-cases, Bool-cases,
  List, [], ◌∷◌, length, ◌==◌,
}
use crispy_enigma.Number.{Number, sub, mul, is_finite}
use crispy_enigma.Contracts.{GameSlug, Difficulty, Selection, RoundResult, is_instant_game}
use crispy_enigma.Engine.Rng.{Hmac}
use crispy_enigma.Engine.Towers.{Power}
use crispy_enigma.Engine.Validate.{validate_selection, Json, Conversions}
use crispy_enigma.Wallet.Money.{cents, round_money, from_cents, from_ten_thousandths}
use crispy_enigma.Wallet.Reply.{Reply, ok, fail, thrown, and_then}
use crispy_enigma.Wallet.Store.{Wallet, Game, Store, get_or_create}
use crispy_enigma.Wallet.Guards.{require_open_session, parse_stake}
use crispy_enigma.Wallet.Writes.{Statement, Write, writes}
use crispy_enigma.Wallet.Bets.{find_open_bet, Draws, debit, hold, has_open_bet}
use crispy_enigma.Wallet.Instant.{
  settle, or_invalid, rolled, payout_of, not_instant_message, write_bet, place_bet_with, place_bet,
}
use crispy_enigma.Wallet.Mines.{
  revealed_of, open_mines, start_mines_with, start_mines, validated_mines,
}
use crispy_enigma.Wallet.Mines.Reveal.{pay_mines, cash_out_mines}
use crispy_enigma.Wallet.Towers.{open_towers, start_towers_with, start_towers, validated_towers}

abbrev pub is_ok {ℓ} : {A : Type ℓ} → Reply A → Bool
is_ok (ok a) = true
is_ok (fail message code) = false
is_ok thrown = false

-- The operation succeeds, or the store is `s` or `t` after it, or it throws because the database
-- rejected a statement.
abbrev pub Leaves {ℓ} : {A : Type ℓ} → (Statement → Bool) → Store → Store → Reply A × Store → Type ℓ
Leaves rejects s t r =
    (is_ok r.0 ≡ true)
    ⊎ (((r.1 ≡ s) ⊎ (r.1 ≡ t))
        ⊎ ((r.0 ≡ thrown) × (statement : Statement) × (rejects statement ≡ true)))

module _ {ℓ₁ ℓ₂} {A : Type ℓ₁} {B : Type ℓ₂} (rejects : Statement → Bool) (s t : Store) where
  and_then-Leaves :
      (r : Reply A) (u : Store) (next : A → Reply B × Store)
      → (u ≡ s) ⊎ (u ≡ t)
      → ((a : A) → Leaves rejects s t (next a))
      → Leaves rejects s t (and_then r u next)
  and_then-Leaves (ok a) u next p q = q a
  and_then-Leaves (fail m c) u next p q = inr (inl p)
  and_then-Leaves thrown u next p q = inr (inl p)

module _ {ℓ} {B : Type ℓ} (rejects : Statement → Bool) (s t : Store) where
  if-Leaves :
      (test : Bool) (a b : Reply B × Store)
      → Leaves rejects s t a
      → Leaves rejects s t b
      → Leaves rejects s t (if test then a else b)
  if-Leaves true a b p q = p
  if-Leaves false a b p q = q

  -- Statements that are all done end in the reply.
  writes-Leaves :
      (ws : List Write) (reply : Reply B) (db : Store)
      → is_ok reply ≡ true
      → Leaves rejects s t (writes rejects ws reply db)
  unfolding writes
  writes-Leaves [] reply db h = inl h
  writes-Leaves ((statement, write) ∷ rest) reply db h = elim (Bool-cases (rejects statement)) [
    | inl e ↦ rw e (inr (inr (refl, statement, e)))
    | inr e ↦ rw e (writes-Leaves rest reply (write db) h)
  ]

module _ (hmac : Hmac) (conv : Conversions) (draws : Draws) (user session_id : ℕ) where
  write_bet-Leaves :
      (game : Game) (selection : Selection) (stake payout : Number) (result : RoundResult)
      (wallet : Wallet) (s db : Store)
      → Leaves draws.rejects s db
          (write_bet hmac conv draws user session_id game selection stake payout result wallet db)
  unfolding write_bet
  write_bet-Leaves game selection stake payout result wallet s db =
      if-Leaves draws.rejects s db (not (is_finite payout)) _ _ (inr (inl (inr refl)))
        (elim (Option-cases (
          debit user (cents stake) (settle (cents (sub payout stake)) (cents stake) (cents payout))
            db)) [
              | inl e ↦ rw (e, write_bet) (inr (inl (inr refl)))
              | inr (held, e) ↦ rw (e, write_bet) (writes-Leaves draws.rejects s db _ _ held refl)
            ])

  place_bet_with-Leaves :
      (game : Game) (selection : Selection) (stake : Number) (db : Store)
      → Leaves draws.rejects db
          (get_or_create user db).1
          (place_bet_with hmac conv draws user session_id game selection stake db)
  unfolding place_bet_with
  place_bet_with-Leaves game selection stake db =
      let made = (get_or_create user db).1 in
      let wallet = (get_or_create user db).0 in
      if-Leaves draws.rejects db made wallet.is_locked _ _ (inr (inl (inr refl))) (
        and_then-Leaves draws.rejects db made
          (rolled hmac conv draws user game selection wallet made) made _ (inr refl)
          λ result.
            write_bet-Leaves game selection stake (payout_of stake result) result wallet db made)

  -- A bet that does not succeed leaves the store as it was, but for the wallet that it may have
  -- made for a player who had none, unless it throws because the database rejected a statement.
  pub place_bet-Leaves :
      (slug : GameSlug) (stake_input : Number) (selection_input : Json) (db : Store)
      → Leaves draws.rejects db
          (get_or_create user db).1
          (place_bet hmac conv draws user session_id slug stake_input selection_input db)
  unfolding place_bet not_instant_message
  place_bet-Leaves slug stake_input selection_input db =
      let made = (get_or_create user db).1 in
      if-Leaves draws.rejects db made (not (is_instant_game slug)) _ _ (inr (inl (inl refl))) (
        and_then-Leaves draws.rejects db made (require_open_session user session_id slug db) db _
          (inl refl)
          λ a.
            let game : Game = a.1 in
            and_then-Leaves draws.rejects db made
              (or_invalid (validate_selection conv slug selection_input)) db _ (inl refl)
              λ selection.
                and_then-Leaves draws.rejects db made
                  (parse_stake stake_input game.min_bet game.max_bet) db _ (inl refl)
                  λ stake. place_bet_with-Leaves game selection stake db)

  open_mines-Leaves :
      (game : Game) (stake : Number) (choice : ℕ) (wallet : Wallet) (s db : Store)
      → Leaves draws.rejects s db
          (open_mines hmac conv draws user session_id game stake choice wallet db)
  unfolding open_mines
  open_mines-Leaves game stake choice wallet s db =
      elim (Option-cases (debit user (cents stake) (hold (cents stake)) db)) [
        | inl e ↦ rw (e, open_mines) (inr (inl (inr refl)))
        | inr (held, e) ↦ rw (e, open_mines) (writes-Leaves draws.rejects s db _ _ held refl)
      ]

  -- A start of a Mines round that does not succeed leaves the store as it was, but for the wallet
  -- that it may have made for a player who had none, unless it throws because the database rejected
  -- a statement.
  pub start_mines-Leaves :
      (stake_input : Number) (choice_input : Number) (db : Store)
      → Leaves draws.rejects db
          (get_or_create user db).1
          (start_mines hmac conv draws user session_id stake_input choice_input db)
  unfolding start_mines start_mines_with
  start_mines-Leaves stake_input choice_input db =
      let made = (get_or_create user db).1 in
      and_then-Leaves draws.rejects db made (require_open_session user session_id GameSlug.mines db)
        db _ (inl refl)
        λ a.
          and_then-Leaves draws.rejects db made (validated_mines conv choice_input) db _ (inl refl)
            λ choice.
              let game : Game = a.1 in
              and_then-Leaves draws.rejects db made
                (parse_stake stake_input game.min_bet game.max_bet) db _ (inl refl)
                λ stake.
                  if-Leaves draws.rejects db made (has_open_bet user game.id db) _ _
                    (inr (inl (inl refl)))
                    (if-Leaves draws.rejects db made (get_or_create user db).0.is_locked _ _
                      (inr (inl (inr refl)))
                      (open_mines-Leaves game stake choice (get_or_create user db).0 db made))

  open_towers-Leaves :
      (power : Power) (game : Game) (stake : Number) (choice : Difficulty) (wallet : Wallet)
      (s db : Store)
      → Leaves draws.rejects s db
          (open_towers hmac power conv draws user session_id game stake choice wallet db)
  unfolding open_towers
  open_towers-Leaves power game stake choice wallet s db =
      elim (Option-cases (debit user (cents stake) (hold (cents stake)) db)) [
        | inl e ↦ rw (e, open_towers) (inr (inl (inr refl)))
        | inr (held, e) ↦ rw (e, open_towers) (writes-Leaves draws.rejects s db _ _ held refl)
      ]

  -- A start of a Towers round that does not succeed leaves the store as it was, but for the wallet
  -- that it may have made for a player who had none, unless it throws because the database rejected
  -- a statement.
  pub start_towers-Leaves :
      (power : Power) (stake_input : Number) (choice_input : Json) (db : Store)
      → Leaves draws.rejects db
          (get_or_create user db).1
          (start_towers hmac power conv draws user session_id stake_input choice_input db)
  unfolding start_towers start_towers_with
  start_towers-Leaves power stake_input choice_input db =
      let made = (get_or_create user db).1 in
      and_then-Leaves draws.rejects db made
        (require_open_session user session_id GameSlug.towers db) db _ (inl refl)
        λ a.
          and_then-Leaves draws.rejects db made (validated_towers conv choice_input) db _ (inl refl)
            λ choice.
              let game : Game = a.1 in
              and_then-Leaves draws.rejects db made
                (parse_stake stake_input game.min_bet game.max_bet) db _ (inl refl)
                λ stake.
                  if-Leaves draws.rejects db made (has_open_bet user game.id db) _ _
                    (inr (inl (inl refl)))
                    (if-Leaves draws.rejects db made (get_or_create user db).0.is_locked _ _
                      (inr (inl (inr refl)))
                      (open_towers-Leaves power game stake choice (get_or_create user db).0 db
                        made))

-- A cash-out of a Mines round that does not succeed leaves the store as it was, unless it throws
-- because the database rejected a statement.
pub cash_out_mines-Leaves :
    (draws : Draws) (user session_id bet_reference : ℕ) (db : Store)
    → Leaves draws.rejects db db (cash_out_mines draws user session_id bet_reference db)
unfolding cash_out_mines pay_mines
cash_out_mines-Leaves draws user session_id bet_reference db =
    and_then-Leaves draws.rejects db db (require_open_session user session_id GameSlug.mines db) db
      _ (inl refl)
      λ a.
        and_then-Leaves draws.rejects db db (find_open_bet user session_id bet_reference db) db _
          (inl refl)
          λ bet.
            if-Leaves draws.rejects db db (length (revealed_of bet.outcome) == 0) _ _
              (inr (inl (inl refl)))
              (if-Leaves draws.rejects db db
                (not (
                  is_finite (
                    round_money
                      (mul (from_cents bet.stake) (from_ten_thousandths bet.multiplier)))))
                _ _ (inr (inl (inl refl))) (writes-Leaves draws.rejects db db _ _ _ refl))

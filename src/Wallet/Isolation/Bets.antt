-- ===== src/Wallet/Isolation/Bets.antt =====
-- Instant bets and the starts of rounds leave the wallets of other players alone.
use crispy_enigma.Base.{
  ◌≡◌, refl, ◌∙◌, arith, ◌≢◌, ℕ, not, Option, none, some, Option-cases, inl, inr,
}
use crispy_enigma.Number.{Number, sub, is_finite}
use crispy_enigma.Contracts.{GameSlug, Difficulty, Selection, RoundResult, is_instant_game}
use crispy_enigma.Engine.Rng.{Hmac}
use crispy_enigma.Engine.Towers.{Power}
use crispy_enigma.Engine.Validate.{validate_selection, Json, Conversions}
use crispy_enigma.Wallet.Money.{cents}
use crispy_enigma.Wallet.Store.{Wallet, Game, ControlRow, Store, get_or_create}
use crispy_enigma.Wallet.Guards.{
  require_open_session, parse_stake, get_control_row, consume_forced_round,
}
use crispy_enigma.Wallet.RuleWrites.{rule_writes-Stages}
use crispy_enigma.Wallet.Writes.{writes-store}
use crispy_enigma.Wallet.Bets.{Draws, debit, hold, has_open_bet, bump_session}
use crispy_enigma.Wallet.Instant.{
  settle, or_invalid, rolled, payout_of, not_instant_message, write_bet, place_bet_with, place_bet,
}
use crispy_enigma.Wallet.Mines.{open_mines, start_mines_with, start_mines, validated_mines}
use crispy_enigma.Wallet.Towers.{open_towers, start_towers_with, start_towers, validated_towers}
use crispy_enigma.Wallet.Isolation.{
  Keeps, debit-Keeps, get_or_create-Keeps, and_then-after, if-after,
}

pub consume_forced_round-wallets :
    (row : Option ControlRow) (db : Store) → (consume_forced_round row db).wallets ≡ db.wallets
unfolding consume_forced_round
consume_forced_round-wallets none db = refl
consume_forced_round-wallets (some row) db = ground arith

module _ (hmac : Hmac) (conv : Conversions) (draws : Draws) (player user session_id : ℕ)
    (other : user ≢ player) where
  write_bet-Keeps :
      (game : Game) (selection : Selection) (stake payout : Number) (result : RoundResult)
      (wallet : Wallet) (db : Store)
      → Keeps player db
          (write_bet hmac conv draws user session_id game selection stake payout result wallet db).1
  unfolding write_bet settle bump_session
  write_bet-Keeps game selection stake payout result wallet db =
      if-after (Keeps player db) (not (is_finite payout)) _ _ refl
        (elim (Option-cases (
          debit user (cents stake) (settle (cents (sub payout stake)) (cents stake) (cents payout))
            db)) [
              | inl e ↦ rw (e, write_bet) refl
              | inr (held, e) ↦
                  let p = debit-Keeps player user other _ _ db held (λ w. refl) e in
                  let row = get_control_row user game.id db in
                  rw (e, write_bet)
                    (writes-store (Keeps player db) draws.rejects _ _ held (
                      p,
                      (
                        p,
                        (
                          p,
                          rule_writes-Stages (Keeps player db) row _ p
                              (rw (consume_forced_round-wallets row _) p),
                        ),
                      ),
                    ))
            ])

  place_bet_with-Keeps :
      (game : Game) (selection : Selection) (stake : Number) (db : Store)
      → Keeps player db (place_bet_with hmac conv draws user session_id game selection stake db).1
  unfolding place_bet_with
  place_bet_with-Keeps game selection stake db =
      let made = (get_or_create user db).1 in
      let wallet = (get_or_create user db).0 in
      let kept = get_or_create-Keeps player user other db in
      if-after (Keeps player db) wallet.is_locked _ _ kept (
        and_then-after (Keeps player db) (rolled hmac conv draws user game selection wallet made)
          made _ kept
          λ result.
            write_bet-Keeps game selection stake (payout_of stake result) result wallet made ∙ kept)

  pub place_bet-Keeps :
      (slug : GameSlug) (stake_input : Number) (selection_input : Json) (db : Store)
      → Keeps player db
          (place_bet hmac conv draws user session_id slug stake_input selection_input db).1
  unfolding place_bet not_instant_message
  place_bet-Keeps slug stake_input selection_input db =
      let P = Keeps player db in
      if-after P (not (is_instant_game slug)) _ _ refl (
        and_then-after P (require_open_session user session_id slug db) db _ refl λ a.
          let game : Game = a.1 in
          and_then-after P (or_invalid (validate_selection conv slug selection_input)) db _ refl
            λ selection.
              and_then-after P (parse_stake stake_input game.min_bet game.max_bet) db _ refl
                λ stake. place_bet_with-Keeps game selection stake db)

  open_mines-Keeps :
      (game : Game) (stake : Number) (choice : ℕ) (wallet : Wallet) (db : Store)
      → Keeps player db (open_mines hmac conv draws user session_id game stake choice wallet db).1
  unfolding open_mines hold bump_session
  open_mines-Keeps game stake choice wallet db =
      elim (Option-cases (debit user (cents stake) (hold (cents stake)) db)) [
        | inl e ↦ rw (e, open_mines) refl
        | inr (held, e) ↦
            let p = debit-Keeps player user other _ _ db held (λ w. refl) e in
            rw (e, open_mines)
              (writes-store (Keeps player db) draws.rejects _ _ held (p, (p, (p, p))))
      ]

  pub start_mines-Keeps :
      (stake_input : Number) (choice_input : Number) (db : Store)
      → Keeps player db (start_mines hmac conv draws user session_id stake_input choice_input db).1
  unfolding start_mines start_mines_with
  start_mines-Keeps stake_input choice_input db =
      let P = Keeps player db in
      let kept = get_or_create-Keeps player user other db in
      and_then-after P (require_open_session user session_id GameSlug.mines db) db _ refl λ a.
        and_then-after P (validated_mines conv choice_input) db _ refl λ choice.
          let game : Game = a.1 in
          and_then-after P (parse_stake stake_input game.min_bet game.max_bet) db _ refl λ stake.
            if-after P (has_open_bet user game.id db) _ _ refl (
              if-after P (get_or_create user db).0.is_locked _ _ kept (
                open_mines-Keeps game stake choice (get_or_create user db).0
                  (get_or_create user db).1
                ∙ kept))

  open_towers-Keeps :
      (power : Power) (game : Game) (stake : Number) (choice : Difficulty) (wallet : Wallet)
      (db : Store)
      → Keeps player db
          (open_towers hmac power conv draws user session_id game stake choice wallet db).1
  unfolding open_towers hold bump_session
  open_towers-Keeps power game stake choice wallet db =
      elim (Option-cases (debit user (cents stake) (hold (cents stake)) db)) [
        | inl e ↦ rw (e, open_towers) refl
        | inr (held, e) ↦
            let p = debit-Keeps player user other _ _ db held (λ w. refl) e in
            rw (e, open_towers)
              (writes-store (Keeps player db) draws.rejects _ _ held (p, (p, (p, p))))
      ]

  pub start_towers-Keeps :
      (power : Power) (stake_input : Number) (choice_input : Json) (db : Store)
      → Keeps player db
          (start_towers hmac power conv draws user session_id stake_input choice_input db).1
  unfolding start_towers start_towers_with
  start_towers-Keeps power stake_input choice_input db =
      let P = Keeps player db in
      let kept = get_or_create-Keeps player user other db in
      and_then-after P (require_open_session user session_id GameSlug.towers db) db _ refl λ a.
        and_then-after P (validated_towers conv choice_input) db _ refl λ choice.
          let game : Game = a.1 in
          and_then-after P (parse_stake stake_input game.min_bet game.max_bet) db _ refl λ stake.
            if-after P (has_open_bet user game.id db) _ _ refl (
              if-after P (get_or_create user db).0.is_locked _ _ kept (
                open_towers-Keeps power game stake choice (get_or_create user db).0
                  (get_or_create user db).1
                ∙ kept))

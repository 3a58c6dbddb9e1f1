-- ===== src/Wallet/OpenBets.antt =====
-- A bet on an instant game opens no round.
use crispy_enigma.Base.{
  ◌≡◌, refl, ℕ, ◌≤◌, List, [], ◌∷◌, ◌++◌, Bool, true, false, not, if◌then◌else◌, Option, none, some,
  inl, inr, Option-cases, arith,
}
use crispy_enigma.Number.{Number, sub, is_finite}
use crispy_enigma.Contracts.{GameSlug, Selection, RoundResult, is_instant_game}
use crispy_enigma.Engine.Rng.{Hmac}
use crispy_enigma.Engine.Validate.{Json, Conversions, validate_selection}
use crispy_enigma.Wallet.Money.{cents}
use crispy_enigma.Wallet.Store.{
  Wallet, Game, Bet, BetStatus, Store, ControlRow, get_or_create, is_open,
}
use crispy_enigma.Wallet.Guards.{
  require_open_session, parse_stake, get_control_row, consume_forced_round,
}
use crispy_enigma.Wallet.RuleWrites.{rule_writes-Stages}
use crispy_enigma.Wallet.Writes.{writes-store}
use crispy_enigma.Wallet.Bets.{Draws, debit, bump_session, is_open_of}
use crispy_enigma.Wallet.Instant.{
  settle, or_invalid, rolled, payout_of, not_instant_message, settled_bet, write_bet,
  place_bet_with, place_bet,
}
use crispy_enigma.Wallet.Rows.{and_then-store, if-store, keep-append}
use crispy_enigma.Wallet.OpenRounds.{IsOneEach, open_count, debit-bets, get_or_create-bets}

-- A bet that is not open adds nothing to the open rounds.
insert_settled :
    (bet : Bet) (bets : List Bet)
    → is_open bet.status ≡ false
    → ((u g : ℕ) → open_count u g bets ≤ 1)
    → (u g : ℕ) → open_count u g (bets ++ (bet ∷ [])) ≤ 1
insert_settled bet bets shut p u g =
    ground (arith, keep-append (is_open_of u g) bets (bet ∷ []), p u g)

consume_forced_round-bets :
    (row : Option ControlRow) (db : Store) → (consume_forced_round row db).bets ≡ db.bets
unfolding consume_forced_round
consume_forced_round-bets none db = refl
consume_forced_round-bets (some row) db = ground arith

won_or_lost : (won : Bool) → is_open (if won then BetStatus.won else BetStatus.lost) ≡ false
won_or_lost true = refl
won_or_lost false = refl

module _ (hmac : Hmac) (conv : Conversions) (draws : Draws) (user session_id : ℕ) where
  write_bet-IsOneEach :
      (game : Game) (selection : Selection) (stake payout : Number) (result : RoundResult)
      (wallet : Wallet) (db : Store)
      → IsOneEach db
      → IsOneEach
          (write_bet hmac conv draws user session_id game selection stake payout result wallet db).1
  unfolding write_bet bump_session settled_bet
  write_bet-IsOneEach game selection stake payout result wallet db p =
      let change = settle (cents (sub payout stake)) (cents stake) (cents payout) in
      if-store IsOneEach (not (is_finite payout)) _ _ (λ _. p)
        λ _. elim (Option-cases (debit user (cents stake) change db)) [
          | inl e ↦ rw (e, write_bet) p
          | inr (held, e) ↦
              let same = debit-bets user (cents stake) change db held e in
              let q : (u g : ℕ) → open_count u g held.bets ≤ 1 = λ u g. rw same (p u g) in
              let r =
                insert_settled
                  (settled_bet hmac conv draws user session_id game selection stake payout result
                    wallet db)
                  held.bets (won_or_lost result.won) q in
              let row = get_control_row user game.id db in
              rw (e, write_bet)
                (writes-store IsOneEach draws.rejects _ _ held (
                  q,
                  (
                    r,
                    (
                      r,
                      rule_writes-Stages IsOneEach row _ r
                          (λ u g. rw (consume_forced_round-bets row _) (r u g)),
                    ),
                  ),
                ))
        ]

  place_bet_with-IsOneEach :
      (game : Game) (selection : Selection) (stake : Number) (db : Store)
      → IsOneEach db
      → IsOneEach (place_bet_with hmac conv draws user session_id game selection stake db).1
  unfolding place_bet_with
  place_bet_with-IsOneEach game selection stake db p =
      let made = (get_or_create user db).1 in
      let wallet = (get_or_create user db).0 in
      let q : IsOneEach made = λ u g. rw (get_or_create-bets user db) (p u g) in
      if-store IsOneEach wallet.is_locked _ _ (λ _. q)
        λ _.
          and_then-store IsOneEach (rolled hmac conv draws user game selection wallet made) made _ q
            λ result _.
              write_bet-IsOneEach game selection stake (payout_of stake result) result wallet made q

  -- If every user has at most one open round of each game, that is so after a bet on an instant
  -- game, on whichever branch.
  pub place_bet-IsOneEach :
      (slug : GameSlug) (stake_input : Number) (selection_input : Json) (db : Store)
      → IsOneEach db
      → IsOneEach (place_bet hmac conv draws user session_id slug stake_input selection_input db).1
  unfolding place_bet not_instant_message
  place_bet-IsOneEach slug stake_input selection_input db p =
      if-store IsOneEach (not (is_instant_game slug)) _ _ (λ _. p)
        λ _. and_then-store IsOneEach (require_open_session user session_id slug db) db _ p λ a _.
          let game : Game = a.1 in
          and_then-store IsOneEach (or_invalid (validate_selection conv slug selection_input)) db _
            p
            λ selection _.
              and_then-store IsOneEach (parse_stake stake_input game.min_bet game.max_bet) db _ p
                λ stake _. place_bet_with-IsOneEach game selection stake db p

-- ===== src/Wallet/BetSolvency.antt =====
-- No balance goes below zero by an instant bet.
use mathlib.Core.Option.{some-injective}
use crispy_enigma.Base.{
  ◌≡◌, refl, sym, ap, ℕ, List, [], ◌∷◌, Bool, true, false, not, if◌then◌else◌, Option, some, inl,
  inr, Option-cases, arith, All,
}
use crispy_enigma.Base.Int.{ℤ, pos, ◌≤ℤ◌, ◌+ℤ◌, +ℤ_parts}
use crispy_enigma.Number.{Number, whole, lt, sub, is_finite}
use crispy_enigma.Number.Doubles.{IsRepresentable}
use crispy_enigma.Contracts.{GameSlug, Selection, RoundResult, is_instant_game}
use crispy_enigma.Engine.Rng.{Hmac}
use crispy_enigma.Engine.Validate.{validate_selection, Json, Conversions}
use crispy_enigma.Wallet.Money.{cents}
use crispy_enigma.Wallet.Reply.{Reply, ok, fail, thrown, and_then}
use crispy_enigma.Wallet.Store.{Wallet, Game, Store, first_where, update_where, get_or_create}
use crispy_enigma.Wallet.Guards.{require_open_session, parse_stake, get_control_row}
use crispy_enigma.Wallet.RuleWrites.{rule_writes-Stages}
use crispy_enigma.Wallet.Writes.{writes-store, writes_all}
use crispy_enigma.Wallet.Bets.{Draws, debit, can_pay, bump_session}
use crispy_enigma.Wallet.Stakes.{IsStake, parse_stake-IsStake}
use crispy_enigma.Wallet.Net.{net-cents, round_money-IsRepresentable}
use crispy_enigma.Wallet.Solvency.{IsCovered, IsSolvent, get_or_create-IsSolvent}
use crispy_enigma.Wallet.Isolation.Bets.{consume_forced_round-wallets}
use crispy_enigma.Wallet.Instant.{
  SettledBet, control_of, settle, or_invalid, rolled, payout_of, not_instant_message, write_bet,
  place_bet_with, place_bet,
}

-- A reply that tells no payout below zero.
abbrev pub IsPayout : Reply SettledBet → Type 0
IsPayout reply = (bet : SettledBet) → reply ≡ ok bet → lt bet.payout (whole 0) ≡ false

-- The same request, of which the database rejects nothing.
abbrev pub unrejected : Draws → Draws
unrejected draws = record draws { rejects = λ statement. false }

-- Solvent, unless the reply tells a payout below zero.
abbrev Stays : Reply SettledBet → Reply SettledBet × Store → Type 0
Stays reply r = IsPayout reply → IsSolvent r.1

and_then-Stays {ℓ} :
    {A : Type ℓ} (r : Reply A) (db : Store) (whole_next next : A → Reply SettledBet × Store)
    → IsSolvent db
    → ((a : A) → r ≡ ok a → Stays (whole_next a).0 (next a))
    → Stays (and_then r db whole_next).0 (and_then r db next)
and_then-Stays (ok a) db whole_next next p q = q a refl
and_then-Stays (fail m c) db whole_next next p q = λ h. p
and_then-Stays thrown db whole_next next p q = λ h. p

if-Stays :
    (test : Bool) (early : Reply SettledBet) (whole_late late : Reply SettledBet × Store)
    (db : Store)
    → IsSolvent db
    → (test ≡ false → Stays whole_late.0 late)
    → Stays (if test then (early, db) else whole_late).0 (if test then (early, db) else late)
if-Stays true early whole_late late db p q = λ h. p
if-Stays false early whole_late late db p q = q refl

module _ (user : ℕ) (amount net won : ℤ) (enough : pos 0 ≤ℤ amount +ℤ net) where
  settle-IsCovered :
      (w : Wallet)
      → IsCovered w
      → IsCovered (if can_pay user amount w then settle net amount won w else w)
  unfolding settle
  settle-IsCovered w p = ground (arith, +ℤ_parts w.balance net, +ℤ_parts amount net, enough)

  settle-All :
      (ws : List Wallet)
      → All IsCovered ws
      → All IsCovered (update_where (can_pay user amount) (settle net amount won) ws)
  settle-All [] p = tt
  settle-All (w ∷ ws) p = (settle-IsCovered w p.0, settle-All ws p.1)

  debit-settle :
      (db held : Store)
      → debit user amount (settle net amount won) db ≡ some held
      → IsSolvent db
      → IsSolvent held
  unfolding debit
  debit-settle db held h p = elim (Option-cases (first_where (can_pay user amount) db.wallets)) [
    | inl e ↦ let impossible = rw (e, debit) at h in cc
    | inr (w, e) ↦
        let same = rw (e, debit) at h in
        rw (sym (some-injective _ held same)) (settle-All db.wallets p)
  ]

module _ (hmac : Hmac) (conv : Conversions) (draws : Draws) (user session_id : ℕ) where
  write_bet-Stays :
      (game : Game) (selection : Selection) (stake payout : Number) (result : RoundResult)
      (wallet : Wallet) (db : Store)
      → IsStake game.min_bet game.max_bet stake
      → IsRepresentable stake
      → IsSolvent db
      → Stays
          (write_bet hmac conv
            (unrejected draws)
            user
            session_id
            game
            selection
            stake
            payout
            result
            wallet
            db).0
          (write_bet hmac conv draws user session_id game selection stake payout result wallet db)
  unfolding write_bet bump_session
  write_bet-Stays game selection stake payout result wallet db k d p =
      if-Stays (not (is_finite payout)) _ _ _ db p λ f.
        let paid : Option Store =
          debit user (cents stake) (settle (cents (sub payout stake)) (cents stake) (cents payout))
            db in
        elim (Option-cases paid) [
          | inl e ↦ rw (e, write_bet) (λ h. p)
          | inr (held, e) ↦
              rw (e, write_bet)
                λ h.
                  let paid_out = h _ (ap (λ r. r.0) (writes_all _ _ held)) in
                  let enough =
                    net-cents payout stake (ground (arith, f)) paid_out k.finite k.above_zero d in
                  let q =
                    debit-settle user (cents stake) (cents (sub payout stake)) (cents payout) enough
                      db held e p in
                  let row = get_control_row user game.id db in
                  writes-store IsSolvent draws.rejects _ _ held (
                    q,
                    (
                      q,
                      (
                        q,
                        rule_writes-Stages IsSolvent row _ q
                            (rw (consume_forced_round-wallets row _) q),
                      ),
                    ),
                  )
        ]

  place_bet_with-Stays :
      (game : Game) (selection : Selection) (stake : Number) (db : Store)
      → IsStake game.min_bet game.max_bet stake
      → IsRepresentable stake
      → IsSolvent db
      → Stays
          (place_bet_with hmac conv (unrejected draws) user session_id game selection stake db).0
          (place_bet_with hmac conv draws user session_id game selection stake db)
  unfolding place_bet_with rolled control_of
  place_bet_with-Stays game selection stake db k d p =
      let made = (get_or_create user db).1 in
      let wallet = (get_or_create user db).0 in
      let q = get_or_create-IsSolvent user db p in
      if-Stays wallet.is_locked _ _ _ made q λ free.
        and_then-Stays (rolled hmac conv draws user game selection wallet made) made _ _ q
          λ result e.
            write_bet-Stays game selection stake (payout_of stake result) result wallet made k d q

  -- If no balance is negative, none is after an instant bet, on whichever branch and whichever
  -- statements the database rejects, unless the bet, with none rejected, succeeds with a payout
  -- below zero.
  pub place_bet-IsSolvent :
      (slug : GameSlug) (stake_input : Number) (selection_input : Json) (db : Store)
      → IsSolvent db
      → IsPayout
          (place_bet hmac conv
            (unrejected draws)
            user
            session_id
            slug
            stake_input
            selection_input
            db).0
      → IsSolvent (place_bet hmac conv draws user session_id slug stake_input selection_input db).1
  unfolding place_bet not_instant_message
  place_bet-IsSolvent slug stake_input selection_input db p =
      if-Stays (not (is_instant_game slug)) _ _ _ db p λ instant.
        and_then-Stays (require_open_session user session_id slug db) db _ _ p λ a e.
          let game : Game = a.1 in
          and_then-Stays (or_invalid (validate_selection conv slug selection_input)) db _ _ p
            λ selection e.
              and_then-Stays (parse_stake stake_input game.min_bet game.max_bet) db _ _ p λ stake e.
                let (same, fits) =
                  parse_stake-IsStake stake_input game.min_bet game.max_bet stake e in
                place_bet_with-Stays game selection stake db fits
                  (rw same (round_money-IsRepresentable stake_input)) p

-- ===== src/Wallet/OpenRounds.antt =====
-- A player has at most one open round of a game.
use mathlib.Core.Option.{some-injective}
use crispy_enigma.Base.{
  ◌≡◌, refl, sym, ℕ, ◌≤◌, List, [], ◌∷◌, ◌++◌, false, ◌&&◌, none, some, inl, inr, Bool-cases,
  Option-cases, arith, ◌==◌, length, keep,
}
use crispy_enigma.Base.Int.{ℤ}
use crispy_enigma.Number.{Number}
use crispy_enigma.Contracts.{Difficulty}
use crispy_enigma.Engine.Rng.{Hmac}
use crispy_enigma.Engine.Towers.{Power}
use crispy_enigma.Engine.Validate.{Json, Conversions}
use crispy_enigma.Wallet.Money.{cents}
use crispy_enigma.Wallet.Store.{Wallet, Game, Bet, Store, first_where, get_or_create}
use crispy_enigma.Wallet.Writes.{writes-store}
use crispy_enigma.Wallet.Bets.{Draws, hold, debit, can_pay, has_open_bet, bump_session, is_open_of}
use crispy_enigma.Wallet.Rows.{keep-append}
use crispy_enigma.Wallet.Mines.{mines_bet, open_mines, start_mines}
use crispy_enigma.Wallet.Towers.{towers_bet, open_towers, start_towers}
use crispy_enigma.Wallet.Starts.{start_mines-store, start_towers-store}

-- The open rounds of a user on a game.
abbrev pub open_count : ℕ → ℕ → List Bet → ℕ
open_count user game bets = length (keep (is_open_of user game) bets)

abbrev pub IsOneEach : Store → Type 0
IsOneEach db = (user game : ℕ) → open_count user game db.bets ≤ 1

none-open_count :
    (user game : ℕ) (bets : List Bet)
    → first_where (is_open_of user game) bets ≡ none
    → open_count user game bets ≡ 0
none-open_count user game [] e = refl
none-open_count user game (b ∷ bs) e = ground (arith, none-open_count user game bs)

has_open_bet-open_count :
    (user game : ℕ) (db : Store)
    → has_open_bet user game db ≡ false
    → open_count user game db.bets ≡ 0
unfolding has_open_bet
has_open_bet-open_count user game db h =
    elim (Option-cases (first_where (is_open_of user game) db.bets)) [
      | inl e ↦ none-open_count user game db.bets e
      | inr (b, e) ↦ let impossible = rw (e, has_open_bet) at h in cc
    ]

-- A new round of a user who has none of that game.
insert-IsOneEach :
    (bet : Bet) (bets : List Bet)
    → open_count bet.user bet.game bets ≡ 0
    → ((u g : ℕ) → open_count u g bets ≤ 1)
    → (u g : ℕ) → open_count u g (bets ++ (bet ∷ [])) ≤ 1
insert-IsOneEach bet bets none_open p u g =
    let both = keep-append (is_open_of u g) bets (bet ∷ []) in
    elim (Bool-cases (bet.user == u && bet.game == g)) [
      | inr other ↦ ground (arith, both, p u g)
      | inl here ↦
          let user : bet.user ≡ u = ground arith in
          let game : bet.game ≡ g = ground arith in
          let none_here = rw (user, game) at none_open in ground (arith, both, none_here)
    ]

pub get_or_create-bets : (user : ℕ) (db : Store) → (get_or_create user db).1.bets ≡ db.bets
unfolding get_or_create
get_or_create-bets user db = elim (Option-cases (first_where (λ w. w.user == user) db.wallets)) [
  | inl e ↦ rw (e, get_or_create) refl
  | inr (w, e) ↦ rw (e, get_or_create) refl
]

pub debit-bets :
    (user : ℕ) (amount : ℤ) (change : Wallet → Wallet) (db held : Store)
    → debit user amount change db ≡ some held
    → held.bets ≡ db.bets
unfolding debit
debit-bets user amount change db held h =
    elim (Option-cases (first_where (can_pay user amount) db.wallets)) [
      | inl e ↦ let impossible = rw (e, debit) at h in cc
      | inr (w, e) ↦ let same = rw (e, debit) at h in rw (sym (some-injective _ held same)) refl
    ]

module _ (hmac : Hmac) (conv : Conversions) (draws : Draws) (user session_id : ℕ) where
  open_mines-IsOneEach :
      (game : Game) (stake : Number) (mine_count : ℕ) (wallet : Wallet) (db : Store)
      → IsOneEach db
      → open_count user game.id db.bets ≡ 0
      → IsOneEach (open_mines hmac conv draws user session_id game stake mine_count wallet db).1
  unfolding bump_session open_mines mines_bet
  open_mines-IsOneEach game stake mine_count wallet db p none_open =
      elim (Option-cases (debit user (cents stake) (hold (cents stake)) db)) [
        | inl e ↦ rw (e, open_mines) p
        | inr (held, e) ↦
            let same = debit-bets user (cents stake) (hold (cents stake)) db held e in
            let q : (u g : ℕ) → open_count u g held.bets ≤ 1 = λ u g. rw same (p u g) in
            let r =
              insert-IsOneEach
                (mines_bet hmac conv draws user session_id game stake mine_count wallet db)
                held.bets (rw same none_open) q in
            rw (e, open_mines) (writes-store IsOneEach draws.rejects _ _ held (q, (r, (r, r))))
      ]

  open_towers-IsOneEach :
      (power : Power) (game : Game) (stake : Number) (difficulty : Difficulty) (wallet : Wallet)
      (db : Store)
      → IsOneEach db
      → open_count user game.id db.bets ≡ 0
      → IsOneEach
          (open_towers hmac power conv draws user session_id game stake difficulty wallet db).1
  unfolding bump_session open_towers towers_bet
  open_towers-IsOneEach power game stake difficulty wallet db p none_open =
      elim (Option-cases (debit user (cents stake) (hold (cents stake)) db)) [
        | inl e ↦ rw (e, open_towers) p
        | inr (held, e) ↦
            let same = debit-bets user (cents stake) (hold (cents stake)) db held e in
            let q : (u g : ℕ) → open_count u g held.bets ≤ 1 = λ u g. rw same (p u g) in
            let r =
              insert-IsOneEach
                (towers_bet hmac power conv draws user session_id game stake difficulty wallet db)
                held.bets (rw same none_open) q in
            rw (e, open_towers) (writes-store IsOneEach draws.rejects _ _ held (q, (r, (r, r))))
      ]

  -- If every user has at most one open round of each game, that is so after the start of a Mines
  -- round, on whichever branch.
  pub start_mines-IsOneEach :
      (stake_input mine_count_input : Number) (db : Store)
      → IsOneEach db
      → IsOneEach (start_mines hmac conv draws user session_id stake_input mine_count_input db).1
  start_mines-IsOneEach stake_input mine_count_input db p =
      let same = get_or_create-bets user db in
      let q : IsOneEach (get_or_create user db).1 = λ u g. rw same (p u g) in
      start_mines-store hmac conv draws IsOneEach user session_id db stake_input mine_count_input p
        q
        λ game stake mine_count none_open.
          open_mines-IsOneEach game stake mine_count _ _ q
            (rw same (has_open_bet-open_count user game.id db none_open))

  -- If every user has at most one open round of each game, that is so after the start of a Towers
  -- round, on whichever branch.
  pub start_towers-IsOneEach :
      (power : Power) (stake_input : Number) (difficulty_input : Json) (db : Store)
      → IsOneEach db
      → IsOneEach
          (start_towers hmac power conv draws user session_id stake_input difficulty_input db).1
  start_towers-IsOneEach power stake_input difficulty_input db p =
      let same = get_or_create-bets user db in
      let q : IsOneEach (get_or_create user db).1 = λ u g. rw same (p u g) in
      start_towers-store hmac conv draws IsOneEach user session_id db power stake_input
        difficulty_input p q
        λ game stake difficulty none_open.
          open_towers-IsOneEach power game stake difficulty _ _ q
            (rw same (has_open_bet-open_count user game.id db none_open))

-- ===== src/Wallet/Isolation/Rounds.antt =====
-- Reveals and cash-outs leave the wallets of other players alone.
use crispy_enigma.Base.{
  refl, ◌≢◌, ℕ, ◌+◌, not, ◌||◌, length, includes, leb, get_or, ◌++◌, ◌∷◌, [], ◌==◌,
}
use crispy_enigma.Number.{Number, whole, mul, lt, le, is_finite, is_integer, to_ℕ}
use crispy_enigma.Contracts.{GameSlug, Difficulty}
use crispy_enigma.Engine.Mines.{mines_tile_count, mines_multiplier}
use crispy_enigma.Engine.Towers.{Power, towers_config, towers_multiplier}
use crispy_enigma.Wallet.Money.{cents, round_money, from_cents, from_ten_thousandths}
use crispy_enigma.Wallet.Store.{Bet, Store}
use crispy_enigma.Wallet.Guards.{require_open_session}
use crispy_enigma.Wallet.Writes.{Statement, writes-store}
use crispy_enigma.Wallet.Bets.{change_wallet, Draws, find_open_bet, pay, release, bump_session}
use crispy_enigma.Wallet.Mines.{mines_of, revealed_of}
use crispy_enigma.Wallet.Mines.Reveal.{
  pay_mines, cash_out_mines, lose_mines, pass_mines, reveal_bet, reveal_mines,
}
use crispy_enigma.Wallet.Towers.{picks_of, traps_of, or_thrown, difficulty_of}
use crispy_enigma.Wallet.Towers.Reveal.{
  pay_towers, cash_out_towers, lose_towers, pass_towers, climb, reveal_towers,
}
use crispy_enigma.Wallet.Isolation.{Keeps, change_wallet-Keeps, and_then-after, if-after}

module _ (draws : Draws) (player user session_id bet_reference : ℕ) (other : user ≢ player) where
  pay_mines-Keeps :
      (bet : Bet) (payout : Number) (db : Store)
      → Keeps player db (pay_mines draws user session_id bet_reference bet payout db).1
  unfolding pay_mines pay bump_session
  pay_mines-Keeps bet payout db =
      let change = pay (cents payout) (cents (from_cents bet.stake)) in
      let p = change_wallet-Keeps player user other change db (λ w. refl) in
      if-after (Keeps player db) (not (is_finite payout)) _ _ refl (
        writes-store (Keeps player db) draws.rejects _ _ (change_wallet user change db)
          (p, (p, (p, p))))

  pub cash_out_mines-Keeps :
      (db : Store) → Keeps player db (cash_out_mines draws user session_id bet_reference db).1
  unfolding cash_out_mines
  cash_out_mines-Keeps db =
      let P = Keeps player db in
      and_then-after P (require_open_session user session_id GameSlug.mines db) db _ refl λ a.
        and_then-after P (find_open_bet user session_id bet_reference db) db _ refl λ bet.
          if-after P (length (revealed_of bet.outcome) == 0) _ _ refl (
            pay_mines-Keeps bet
              (round_money (mul (from_cents bet.stake) (from_ten_thousandths bet.multiplier))) db)

  lose_mines-Keeps :
      (bet : Bet) (tile : ℕ) (db : Store)
      → Keeps player db (lose_mines draws user session_id bet_reference bet tile db).1
  unfolding lose_mines release
  lose_mines-Keeps bet tile db =
      let change = release (cents (from_cents bet.stake)) in
      let p = change_wallet-Keeps player user other change db (λ w. refl) in
      writes-store (Keeps player db) draws.rejects _ _ (change_wallet user change db) (p, p)

  pass_mines-Keeps :
      (house_edge : Number) (bet : Bet) (tile : ℕ) (db : Store)
      → Keeps player db (pass_mines draws user session_id bet_reference house_edge bet tile db).1
  unfolding pass_mines
  pass_mines-Keeps house_edge bet tile db =
      let P = Keeps player db in
      let count = length (mines_of bet.outcome) in
      let seen = length (revealed_of bet.outcome ++ (tile ∷ [])) in
      if-after P
        (draws.rejects Statement.bet_mark
          || not (is_finite (mines_multiplier count seen house_edge)))
        _ _ refl
        (if-after P (leb mines_tile_count (count + seen)) _ _ (cash_out_mines-Keeps _) refl)

  pub reveal_mines-Keeps :
      (tile : Number) (db : Store)
      → Keeps player db (reveal_mines draws user session_id bet_reference tile db).1
  unfolding reveal_mines reveal_bet
  reveal_mines-Keeps tile db =
      let P = Keeps player db in
      if-after P (not (is_integer tile) || lt tile (whole 0) || le (whole mines_tile_count) tile) _
        _ refl
        (and_then-after P (require_open_session user session_id GameSlug.mines db) db _ refl λ a.
          and_then-after P (find_open_bet user session_id bet_reference db) db _ refl λ bet.
            if-after P (includes (revealed_of bet.outcome) (to_ℕ tile)) _ _ refl (
              if-after P (includes (mines_of bet.outcome) (to_ℕ tile)) _ _
                (lose_mines-Keeps bet (to_ℕ tile) db)
                (pass_mines-Keeps a.1.house_edge bet (to_ℕ tile) db)))

  pay_towers-Keeps :
      (bet : Bet) (payout : Number) (db : Store)
      → Keeps player db (pay_towers draws user session_id bet_reference bet payout db).1
  unfolding pay_towers pay bump_session
  pay_towers-Keeps bet payout db =
      let change = pay (cents payout) (cents (from_cents bet.stake)) in
      let p = change_wallet-Keeps player user other change db (λ w. refl) in
      if-after (Keeps player db) (not (is_finite payout)) _ _ refl (
        writes-store (Keeps player db) draws.rejects _ _ (change_wallet user change db)
          (p, (p, (p, p))))

  pub cash_out_towers-Keeps :
      (db : Store) → Keeps player db (cash_out_towers draws user session_id bet_reference db).1
  unfolding cash_out_towers
  cash_out_towers-Keeps db =
      let P = Keeps player db in
      and_then-after P (require_open_session user session_id GameSlug.towers db) db _ refl λ a.
        and_then-after P (find_open_bet user session_id bet_reference db) db _ refl λ bet.
          if-after P (length (picks_of bet.outcome) == 0) _ _ refl (
            pay_towers-Keeps bet
              (round_money (mul (from_cents bet.stake) (from_ten_thousandths bet.multiplier))) db)

  lose_towers-Keeps :
      (bet : Bet) (tile : ℕ) (db : Store)
      → Keeps player db (lose_towers draws user session_id bet_reference bet tile db).1
  unfolding lose_towers release
  lose_towers-Keeps bet tile db =
      let change = release (cents (from_cents bet.stake)) in
      let p = change_wallet-Keeps player user other change db (λ w. refl) in
      writes-store (Keeps player db) draws.rejects _ _ (change_wallet user change db) (p, p)

  module _ (power : Power) where
    pass_towers-Keeps :
        (house_edge : Number) (bet : Bet) (difficulty : Difficulty) (tile : ℕ) (db : Store)
        → Keeps player db
            (pass_towers power draws user session_id bet_reference house_edge bet difficulty tile
              db).1
    unfolding pass_towers
    pass_towers-Keeps house_edge bet difficulty tile db =
        let P = Keeps player db in
        let floors = length (picks_of bet.outcome ++ (tile ∷ [])) in
        if-after P
          (draws.rejects Statement.bet_mark
            || not (is_finite (towers_multiplier power difficulty floors house_edge)))
          _ _ refl
          (if-after P (leb (towers_config difficulty).rows floors) _ _ (cash_out_towers-Keeps _)
            refl)

    climb-Keeps :
        (house_edge : Number) (bet : Bet) (difficulty : Difficulty) (tile : Number) (db : Store)
        → Keeps player db
            (climb power draws user session_id bet_reference house_edge bet difficulty tile db).1
    unfolding climb
    climb-Keeps house_edge bet difficulty tile db =
        let P = Keeps player db in
        let row = length (picks_of bet.outcome) in
        if-after P
          (not (is_integer tile)
            || lt tile (whole 0)
            || le (whole (towers_config difficulty).tiles) tile)
          _ _ refl
          (if-after P (leb (towers_config difficulty).rows row) _ _ refl (
            if-after P (includes (get_or (traps_of bet.outcome) row []) (to_ℕ tile)) _ _
              (lose_towers-Keeps bet (to_ℕ tile) db)
              (pass_towers-Keeps house_edge bet difficulty (to_ℕ tile) db)))

    pub reveal_towers-Keeps :
        (tile : Number) (db : Store)
        → Keeps player db (reveal_towers power draws user session_id bet_reference tile db).1
    unfolding reveal_towers
    reveal_towers-Keeps tile db =
        let P = Keeps player db in
        and_then-after P (require_open_session user session_id GameSlug.towers db) db _ refl λ a.
          and_then-after P (find_open_bet user session_id bet_reference db) db _ refl λ bet.
            and_then-after P (or_thrown (difficulty_of bet.selection)) db _ refl
              λ difficulty. climb-Keeps a.1.house_edge bet difficulty tile db

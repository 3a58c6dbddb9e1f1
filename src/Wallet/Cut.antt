-- ===== src/Wallet/Cut.antt =====
-- What a start of a Mines round leaves behind when the database takes the stake but not the bet.
use crispy_enigma.Base.{◌≡◌, true}
use crispy_enigma.Number.{Number}
use crispy_enigma.Wallet.Reply.{Reply, thrown}
use crispy_enigma.Wallet.Store.{Wallet, Store}
use crispy_enigma.Wallet.Atomic.{is_ok}
use crispy_enigma.Wallet.Mines.{MinesRoundState}

-- Where the first run succeeds, the second throws with the same wallets and the bets of `db`.
abbrev Cut : Store → Reply MinesRoundState × Store → Reply MinesRoundState × Store → Type 0
Cut db a b = is_ok a.0 ≡ true → (b.0 ≡ thrown) × (b.1.wallets ≡ a.1.wallets) × (b.1.bets ≡ db.bets)

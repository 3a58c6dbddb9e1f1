-- ===== src/Wallet/Bets.antt =====
-- The statements on wallets, bets, ledger and sessions that the operations of
-- libs/wallet/src/play.service.ts share, and the inputs they take from outside the store.
use Prim.Native.String.{String}
use crispy_enigma.Base.{
  ℕ, ◌+◌, List, [], ◌∷◌, ◌++◌, Bool, true, false, ◌&&◌, if◌then◌else◌, Option, none, some, ◌==◌,
}
use crispy_enigma.Base.Int.{ℤ, pos, ◌+ℤ◌, ◌-ℤ◌, leb_ℤ, at_least_zero}
use crispy_enigma.Number.{Number, neg}
use crispy_enigma.Contracts.{ForcedResult, Outcome, SeedContext}
use crispy_enigma.Wallet.Money.{cents}
use crispy_enigma.Wallet.Reply.{Reply, ok, fail, plain, validation}
use crispy_enigma.Wallet.Writes.{Statement}
use crispy_enigma.Wallet.Store.{
  Wallet, Session, Bet, BetStatus, TransactionType, Transaction, Store, is_open, first_where,
  update_where,
}

-- What a request draws from outside: the time, new keys, the seeds with the server seed's hash, and
-- which of its statements the database rejects.
pub record Draws : Type 0 where
  pub now : ℕ
  pub bet_id : ℕ
  pub bet_reference : ℕ
  pub stake_reference : ℕ
  pub payout_reference : ℕ
  pub server_seed : String
  pub server_seed_hash : String
  pub client_seed : String
  pub rejects : Statement → Bool

abbrev pub seeds_of : Draws → ℕ → SeedContext
seeds_of draws nonce = record {
  server_seed = draws.server_seed;
  client_seed = draws.client_seed;
  nonce = nonce;
}

abbrev pub was_forced : ForcedResult → Bool
was_forced none = false
was_forced (some _) = true

abbrev pub balance_of : ℕ → Store → Option ℤ
balance_of user db = elim (first_where (λ w. w.user == user) db.wallets) [
  | none ↦ none
  | some w ↦ some w.balance
]

abbrev pub or_zero : Option ℤ → ℤ
or_zero none = pos 0
or_zero (some z) = z

-- The debit's `where`: the user's wallet, if it holds the stake.
abbrev pub can_pay : ℕ → ℤ → Wallet → Bool
can_pay user amount w = w.user == user && leb_ℤ amount w.balance

-- The change of wallets that `change` makes where `can_pay` holds; `none` if it holds nowhere.
unfoldable pub debit : ℕ → ℤ → (Wallet → Wallet) → Store → Option Store
debit user amount change db = elim (first_where (can_pay user amount) db.wallets) [
  | none ↦ none
  | some _ ↦ some (record db { wallets = update_where (can_pay user amount) change db.wallets })
]

-- A stake moves from the balance to the locked balance.
unfoldable pub hold : ℤ → Wallet → Wallet
hold amount w = record w {
  balance = w.balance -ℤ amount;
  locked_balance = w.locked_balance +ℤ amount;
  total_wagered = w.total_wagered +ℤ amount;
}

-- `GREATEST(locked_balance - stake, 0)`
unfoldable pub release : ℤ → Wallet → Wallet
release amount w = record w { locked_balance = at_least_zero (w.locked_balance -ℤ amount) }

-- A cash-out: the payout to the balance, the stake off the locked balance.
unfoldable pub pay : ℤ → ℤ → Wallet → Wallet
pay payout amount w = record w {
  balance = w.balance +ℤ payout;
  locked_balance = at_least_zero (w.locked_balance -ℤ amount);
  total_won = w.total_won +ℤ payout;
}

abbrev pub change_wallet : ℕ → (Wallet → Wallet) → Store → Store
change_wallet user change db = record db {
  wallets = update_where (λ w. w.user == user) change db.wallets;
}

abbrev pub change_bet : ℕ → (Bet → Bet) → Store → Store
change_bet id change db = record db { bets = update_where (λ b. b.id == id) change db.bets }

abbrev pub insert_bet : Bet → Store → Store
insert_bet bet db = record db { bets = db.bets ++ (bet ∷ []) }

abbrev pub insert_transactions : List Transaction → Store → Store
insert_transactions rows db = record db { transactions = db.transactions ++ rows }

-- The ledger rows of a bet: minus the stake, and the payout.
abbrev pub stake_row : ℕ → Number → Draws → Transaction
stake_row user stake draws = record {
  user = user;
  type = TransactionType.stake;
  amount = cents (neg stake);
  balance_after = none;
  reference = draws.stake_reference;
  bet_reference = draws.bet_reference;
}

abbrev pub payout_row : ℕ → Number → Option ℤ → ℕ → Draws → Transaction
payout_row user payout balance bet_reference draws = record {
  user = user;
  type = TransactionType.payout;
  amount = cents payout;
  balance_after = balance;
  reference = draws.payout_reference;
  bet_reference = bet_reference;
}

abbrev pub bump : Number → Number → Session → Session
bump staked won s = record s {
  bet_count = s.bet_count + 1;
  total_staked = s.total_staked +ℤ cents staked;
  total_won = s.total_won +ℤ cents won;
}

-- `bumpSession`
unfoldable pub bump_session : ℕ → Number → Number → Store → Store
bump_session session_id staked won db = record db {
  sessions = update_where (λ s. s.id == session_id) (bump staked won) db.sessions;
}

-- The bet that a player names by its reference, in a session.
abbrev pub is_named : ℕ → ℕ → ℕ → Bet → Bool
is_named user session_id bet_reference b =
    b.reference == bet_reference && b.user == user && b.session == session_id

abbrev pub checked_open : Option Bet → Reply Bet
checked_open none = fail (plain "Round not found") validation
checked_open (some bet) =
    if is_open bet.status then ok bet else fail (plain "Round already finished") validation

unfoldable pub find_open_bet : ℕ → ℕ → ℕ → Store → Reply Bet
find_open_bet user session_id bet_reference db =
    checked_open (first_where (is_named user session_id bet_reference) db.bets)

abbrev pub is_open_of : ℕ → ℕ → Bet → Bool
is_open_of user game b = b.user == user && b.game == game && is_open b.status

unfoldable pub has_open_bet : ℕ → ℕ → Store → Bool
has_open_bet user game db = elim (first_where (is_open_of user game) db.bets) [
  | none ↦ false
  | some _ ↦ true
]

-- A round that is lost: nothing is paid.
unfoldable pub lose_bet : Outcome → ℕ → Bet → Bet
lose_bet outcome now b = record b {
  status = BetStatus.lost;
  multiplier = pos 0;
  payout = pos 0;
  outcome = outcome;
  settled_at = some now;
}

unfoldable pub cash_out_bet : ℤ → ℕ → Bet → Bet
cash_out_bet payout now b = record b {
  status = BetStatus.cashed_out;
  payout = payout;
  settled_at = some now;
}

-- The newest open round: rows are kept in the order they are made.
newest_where : (Bet → Bool) → List Bet → Option Bet
newest_where test [] = none
newest_where test (b ∷ bs) = elim (newest_where test bs) [
  | some newer ↦ some newer
  | none ↦ if test b then some b else none
]

abbrev pub open_here : ℕ → ℕ → ℕ → Bet → Bool
open_here user game session_id b = is_open_of user game b && b.session == session_id

unfoldable pub open_round_of : ℕ → ℕ → ℕ → Store → Option Bet
unfolding newest_where
open_round_of user game session_id db = newest_where (open_here user game session_id) db.bets

-- ===== src/Deposits/Watch.antt =====
-- libs/wallet/src/deposits/watch.ts: the parts of `inspect`. Every reading of the clock in one call
-- gives the same time, `now`.
pub mod Inspect
use crispy_enigma.Base.{
  ℕ, ◌+◌, ◌-◌, ◌/◌, ◌≤◌, List, [], ◌∷◌, ◌++◌, map, Bool, true, false, not, ◌&&◌, ◌||◌,
  if◌then◌else◌, Option, none, some, ◌==◌, ltb, leb, length, keep, min,
}
use crispy_enigma.Base.Int.{ℤ, pos}
use crispy_enigma.Number.{Number, whole, sub, lt, le, abs, is_finite}
use crispy_enigma.Wallet.Money.{from_cents}
use crispy_enigma.Wallet.Store.{Wallet, Store, first_where, update_where}
use crispy_enigma.Deposits.Types.{
  Coin, DepositStatus, pending, review, confirmed, cancelled, Reason, expired_payment,
  shared_address_collision, new_account_large, large_first_deposit, rapid_deposits, TxHash,
  on_chain, simulated, Simulate, Metadata, Deposit, IncomingTx,
}
use crispy_enigma.Deposits.Coins.{
  Kind, matches, near, ignored, coin_quote, match_window_for, classify_received,
}
use crispy_enigma.Deposits.Credit.{is_pending, has_id, can_flag, change_deposits}

-- What is sent on the player's channel, or by mail.
pub data Sent : Type 0 where
  deposit_updated : ℕ → ℕ → DepositStatus → ℕ → ℕ → Option Number → Option Number → Sent
  balance_changed : ℕ → Number → Sent
  credited_mail : ℕ → Sent

-- The store, the hashes of credited payments, and what has been sent.
pub record Watch : Type 0 where
  pub store : Store
  pub hashes : List TxHash
  pub sent : List Sent

abbrev pub or_else {ℓ} : {A : Type ℓ} → Option A → A → A
or_else none d = d
or_else (some x) d = x

abbrev pub same_hash : TxHash → TxHash → Bool
same_hash (on_chain a) (on_chain b) = a == b
same_hash (simulated a) (simulated b) = a == b
same_hash (on_chain a) (simulated b) = false
same_hash (simulated a) (on_chain b) = false

unfoldable pub has_hash : List TxHash → TxHash → Bool
has_hash [] h = false
has_hash (x ∷ xs) h = same_hash x h || has_hash xs h

-- A quote lasts an hour.
unfoldable pub quote_deadline : Metadata → ℕ → ℕ
quote_deadline metadata created_at = or_else metadata.expires_at (created_at + 3_600_000)

unfoldable pub payment_seen : Metadata → Bool
payment_seen metadata =
    lt (whole 0) (or_else metadata.received_crypto (whole 0))
    || ltb 0 (or_else metadata.confirmations 0)

-- `required` and `window` of `inspect`, of a deposit that has a coin.
unfoldable pub required_of : Coin → Deposit → ℕ
required_of coin d = or_else d.metadata.required_confirmations (coin_quote coin).confirmations

unfoldable pub window_of : Coin → Deposit → Number
window_of coin d = or_else d.metadata.match_window (match_window_for coin d.amount_crypto)

-- A balance is told only with a confirmed deposit.
unfoldable pub told_balance : ℕ → DepositStatus → Option Number → List Sent
told_balance user confirmed (some b) = if is_finite b then balance_changed user b ∷ [] else []
told_balance user status balance = []

-- `notify`
unfoldable pub notify :
    Deposit → DepositStatus → ℕ → ℕ → Option Number → Option Number → Watch → Watch
notify d status confirmations required received balance w = record w {
  sent =
      w.sent
      ++ (deposit_updated d.user d.reference status confirmations required received balance
          ∷ told_balance d.user status balance);
}

-- `simulatedIncoming` of the body that `metadata.simulate` is, if it is one.
simulated_payment : ℕ → ℕ → ℕ → ℕ → Simulate → Option IncomingTx
simulated_payment now id created_at required body =
    let appear_at = or_else body.appear_at (created_at + 8_000) in
    let due = min required (1 + (now - appear_at) / 4_000) in
    if not (is_finite body.amount) || le body.amount (whole 0)
    then none
    else if ltb now appear_at
    then none
    else if leb due (or_else body.confirmations 0)
    then none
    else some (record {
      hash = or_else body.hash (simulated id);
      amount = body.amount;
      confirmations = due;
      from_address = none;
    })

unfoldable pub simulated_incoming : ℕ → Deposit → ℕ → Option IncomingTx
unfolding simulated_payment
simulated_incoming now d required = elim d.metadata.simulate [
  | none ↦ none
  | some body ↦ simulated_payment now d.id d.created_at required body
]

abbrev pub is_count : ℕ → Option ℕ → Bool
is_count n none = false
is_count n (some m) = m == n

abbrev pub is_hash : TxHash → Option TxHash → Bool
is_hash h none = false
is_hash h (some g) = same_hash g h

-- Nothing new to note about a payment.
unfoldable pub is_unchanged : Metadata → IncomingTx → Bool
is_unchanged meta tx = is_count tx.confirmations meta.confirmations && is_hash tx.hash meta.tx_hash

abbrev pub ticked : ℕ → ℕ → Option Simulate → Option Simulate
ticked now confirmations none = none
ticked now confirmations (some s) =
    some (record s { confirmations = some confirmations; ticked_at = some now })

-- The metadata as read with the deposit, with what is known of the payment.
unfoldable pub progress_metadata : ℕ → IncomingTx → Metadata → Metadata
progress_metadata now tx meta = record meta {
  simulate = ticked now tx.confirmations meta.simulate;
  tx_hash = some tx.hash;
  received_crypto = some tx.amount;
  confirmations = some tx.confirmations;
  from_address = tx.from_address;
}

unfoldable pub note_progress : ℕ → Deposit → IncomingTx → Watch → Watch
note_progress now d tx w = if is_unchanged d.metadata tx then w else record w {
  store =
      change_deposits (has_id d.id)
        (λ row. record row { metadata = progress_metadata now tx d.metadata }) w.store;
}

-- `progress`
unfoldable pub progress : ℕ → Deposit → IncomingTx → ℕ → Bool → Watch → Watch
progress now d tx required silent w =
    let noted = note_progress now d tx w in
    if silent || is_unchanged d.metadata tx
    then noted
    else notify d pending tx.confirmations required (some tx.amount) none noted

-- `cancelUnpaid`: the update spares a deposit that is no longer pending, the message does not.
unfoldable pub cancel_row : ℕ → Metadata → Deposit → Deposit
cancel_row now meta d = record d {
  status = cancelled;
  completed_at = some now;
  metadata = record meta { cancelled_as_expired = true };
}

unfoldable pub cancel_unpaid : ℕ → Deposit → ℕ → Watch → Watch
cancel_unpaid now d required w =
    notify d cancelled (or_else d.metadata.confirmations 0) required none none
      (record w { store = change_deposits (can_flag d.id) (cancel_row now d.metadata) w.store })

-- The checks that hold a payment back for review.
abbrev pub when : Bool → Reason → List Reason
when true reason = reason ∷ []
when false reason = []

abbrev pub same_address : Option ℕ → Option ℕ → Bool
same_address none none = true
same_address (some a) (some b) = a == b
same_address none (some b) = false
same_address (some a) none = false

unfoldable pub collides : Deposit → IncomingTx → Number → Deposit → Bool
collides d tx window row =
    not (row.id == d.id)
    && same_address row.address d.address
    && is_finite row.amount_crypto
    && le (abs (sub row.amount_crypto tx.amount)) window

unfoldable pub total_deposited_of : ℕ → Store → Number
total_deposited_of user db = elim (first_where (λ w. w.user == user) db.wallets) [
  | none ↦ whole 0
  | some w ↦ from_cents w.total_deposited
]

unfoldable pub recent_count : ℕ → ℕ → Store → ℕ
recent_count now user db =
    length (keep (λ d. d.user == user && ltb now (d.created_at + 600_000)) db.deposits)

unfoldable pub reasons_for :
    ℕ → Coin → Deposit → List Deposit → IncomingTx → Bool → Store → List Reason
reasons_for now coin d all_pending tx late db =
    let usd = from_cents d.amount in
    when late expired_payment
    ++ (when (ltb 0 (length (keep (collides d tx (window_of coin d)) all_pending)))
          shared_address_collision
        ++ (when (ltb now (d.user_created_at + 1_800_000) && le (whole 500) usd) new_account_large
            ++ (when (le (total_deposited_of d.user db) (whole 0) && le (whole 1_000) usd)
                  large_first_deposit
                ++ when (leb 3 (recent_count now d.user db)) rapid_deposits)))

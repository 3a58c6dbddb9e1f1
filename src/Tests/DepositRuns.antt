-- ===== src/Tests/DepositRuns.antt =====
-- The theorems on deposits, at the store of Tests/WalletRuns with a deposit of 25.00 that is pending.
use crispy_enigma.Base.{◌≡◌, refl, [], ◌∷◌, map, false, none, some, arith}
use crispy_enigma.Base.Int.{pos, negsuc, ◌+ℤ◌}
use crispy_enigma.Number.{Number, whole, decimal, mul, div, round, add}
use crispy_enigma.Wallet.Money.{cents, from_cents}
use crispy_enigma.Wallet.Columns.{cents-from_cents}
use crispy_enigma.Wallet.Store.{Store, first_where}
use crispy_enigma.Wallet.Isolation.{wallet_of}
use crispy_enigma.Deposits.Types.{usdt, pending, on_chain, Metadata, Deposit, IncomingTx}
use crispy_enigma.Deposits.Credit.{
  can_credit, claim_row, claim, ensure_wallet, add_deposit, pay_deposit, finish, credit_read,
  credit_deposit,
}
use crispy_enigma.Deposits.Watch.Inspect.{chain, Explorer, with_payment, scan}
use crispy_enigma.Deposits.Machine.{Follow}
use crispy_enigma.Deposits.Coins.{
  round_crypto, uniqueness_step_for, match_window_for, coin_quote, allocate_unique_amount,
}
use crispy_enigma.Deposits.FreeAmount.{GoesUp, IsFree, allocate_unique_amount-IsFree}
use crispy_enigma.Deposits.Pays.{or_new, credit_deposit_pays}
use crispy_enigma.Deposits.Once.{credit_deposit_once}
use crispy_enigma.Deposits.ScanMoves.{scan-Follow}
use crispy_enigma.Tests.WalletRuns.{db}

abbrev quoted : Metadata
quoted = record {
  expires_at = some 9_000_000;
  required_confirmations = some 2;
  match_window = none;
  tx_hash = none;
  received_crypto = none;
  confirmations = none;
  from_address = none;
  simulate = none;
  needs_review = false;
  review_reasons = [];
  credited_at = none;
  flagged_at = none;
  cancelled_as_expired = false;
}

abbrev waiting : Deposit
waiting = record {
  id = 90;
  user = 1;
  reference = 91;
  status = pending;
  amount = pos 2_500;
  balance_after = none;
  coin = some usdt;
  network = 1;
  address = some 77;
  amount_crypto = whole 25;
  metadata = quoted;
  created_at = 1_000_000;
  user_created_at = 1_000;
  completed_at = none;
}

abbrev with_deposit : Store
with_deposit = record db { deposits = waiting ∷ [] }

-- A payment of the quoted amount, with two confirmations.
abbrev payment : IncomingTx
payment = record { hash = on_chain 5; amount = whole 25; confirmations = 2; from_address = none }

abbrev credited : Deposit
credited = record (claim_row 2_000_000 (with_payment payment) quoted waiting) {
  balance_after = some (pos 10_000 +ℤ cents (from_cents (pos 2_500)));
}

waiting-credited :
    (credit_deposit 2_000_000 90 (with_payment payment) with_deposit).0 ≡ some credited
unfolding credit_deposit credit_read claim finish pay_deposit ensure_wallet add_deposit claim_row
waiting-credited = refl

credit_deposit_once_example :
    let after = (credit_deposit 2_000_000 90 (with_payment payment) with_deposit).1 in
    (credit_deposit 2_000_100 90 (with_payment payment) after ≡ (none, after))
    × (credit_read 2_000_100 90 (with_payment payment) waiting after ≡ (none, after))
credit_deposit_once_example =
    credit_deposit_once 2_000_000 90 2_000_100 (with_payment payment) (with_payment payment) waiting
      credited with_deposit waiting-credited

abbrev explorer : Explorer
explorer coin network address = some (payment ∷ [])

scan-Follow_example :
    Follow with_deposit.deposits (scan explorer chain 2_000_000 with_deposit).store.deposits
scan-Follow_example = scan-Follow explorer chain 2_000_000 with_deposit

-- The quote of 25 USDT is taken; the step is 0.825.
abbrev step : Number
step = uniqueness_step_for usdt (whole 25)

taken-GoesUp : GoesUp step 6 (map (λ value. round_crypto value 6) (whole 25 ∷ []))
unfolding uniqueness_step_for match_window_for coin_quote round_crypto whole decimal mul div round
    add
taken-GoesUp = (refl, tt)

allocate_unique_amount-IsFree_example :
    IsFree
      (map (λ value. round_crypto value 6) (whole 25 ∷ []))
      (allocate_unique_amount 2 (whole 25) (whole 25 ∷ []) step 6)
allocate_unique_amount-IsFree_example =
    allocate_unique_amount-IsFree (whole 25) (whole 25 ∷ []) step 6 taken-GoesUp

-- A debt of 0.29
cents-from_cents_example : cents (from_cents (negsuc 28)) ≡ negsuc 28
cents-from_cents_example = cents-from_cents (negsuc 28) (omega arith)

waiting-found : first_where (can_credit 90) with_deposit.deposits ≡ some waiting
waiting-found = refl

credit_deposit_pays_example :
    ((d : Deposit) × ((credit_deposit 2_000_000 90 (with_payment payment) with_deposit).0 ≡ some d))
    × (wallet_of 1 (credit_deposit 2_000_000 90 (with_payment payment) with_deposit).1
        ≡ some (add_deposit (pos 2_500) (or_new 1 (wallet_of 1 with_deposit))))
credit_deposit_pays_example =
    credit_deposit_pays 2_000_000 90 (with_payment payment) waiting with_deposit waiting-found
      (omega arith)

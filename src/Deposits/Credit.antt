-- ===== src/Deposits/Credit.antt =====
-- libs/wallet/src/deposits/credit.ts.
use crispy_enigma.Base.{
  ℕ, List, [], ◌∷◌, ◌++◌, Bool, true, false, ◌&&◌, if◌then◌else◌, Option, none, some, ◌==◌,
}
use crispy_enigma.Base.Int.{ℤ, ◌+ℤ◌}
use crispy_enigma.Wallet.Money.{cents, from_cents}
use crispy_enigma.Wallet.Store.{Wallet, Store, first_where, update_where, new_wallet}
use crispy_enigma.Deposits.Types.{
  DepositStatus, pending, review, confirmed, Reason, Metadata, Deposit,
}

-- `CREDITABLE`
abbrev pub is_creditable : DepositStatus → Bool
is_creditable pending = true
is_creditable review = true
is_creditable status = false

abbrev pub is_pending : DepositStatus → Bool
is_pending pending = true
is_pending status = false

abbrev pub has_id : ℕ → Deposit → Bool
has_id id d = d.id == id

abbrev pub can_credit : ℕ → Deposit → Bool
can_credit id d = d.id == id && is_creditable d.status

abbrev pub change_deposits : (Deposit → Bool) → (Deposit → Deposit) → Store → Store
change_deposits test change db = record db { deposits = update_where test change db.deposits }

-- `insert … onConflictDoNothing`, on the key of the user.
unfoldable pub ensure_wallet : ℕ → Store → Store
ensure_wallet user db = elim (first_where (λ w. w.user == user) db.wallets) [
  | some _ ↦ db
  | none ↦ record db { wallets = db.wallets ++ (new_wallet user ∷ []) }
]

unfoldable pub add_deposit : ℤ → Wallet → Wallet
add_deposit amount w = record w {
  balance = w.balance +ℤ amount;
  total_deposited = w.total_deposited +ℤ amount;
}

-- The metadata of the row as it was read, with the extra entries, and the time.
unfoldable pub claim_row : ℕ → (Metadata → Metadata) → Metadata → Deposit → Deposit
claim_row now extra read d = record d {
  status = confirmed;
  completed_at = some now;
  metadata = record (extra read) { credited_at = some now };
}

-- The claiming update, guarded by the status: the row it changes, if there is one.
unfoldable pub claim : ℕ → ℕ → (Metadata → Metadata) → Deposit → Store → Option (Deposit × Store)
claim now id extra current db = elim (first_where (can_credit id) db.deposits) [
  | none ↦ none
  | some row ↦ some (
    claim_row now extra current.metadata row,
    change_deposits (can_credit id) (claim_row now extra current.metadata) db,
  )
]

-- Without a wallet the claim is taken back; otherwise the row learns the balance.
unfoldable pub finish : ℕ → Deposit → Deposit → Store → Option Deposit × Store
finish id current claimed db = elim (first_where (λ w. w.user == claimed.user) db.wallets) [
  | none ↦ (
    none,
    change_deposits (has_id id) (λ d. record d { status = current.status; completed_at = none }) db,
  )
  | some wallet ↦
      let note = λ (d : Deposit). record d { balance_after = some wallet.balance } in
      let noted = change_deposits (has_id id) note db in
      elim (first_where (has_id id) noted.deposits) [
        | none ↦ (some claimed, noted)
        | some updated ↦ (some updated, noted)
      ]
]

-- The wallet of a claimed deposit, made if need be, and paid.
unfoldable pub pay_deposit : Deposit → Store → Store
pay_deposit claimed db =
    let amount = cents (from_cents claimed.amount) in
    let made = ensure_wallet claimed.user db in
    record made {
      wallets = update_where (λ w. w.user == claimed.user) (add_deposit amount) made.wallets;
    }

-- From the claim on, for a row that has been read.
unfoldable pub credit_read :
    ℕ → ℕ → (Metadata → Metadata) → Deposit → Store → Option Deposit × Store
credit_read now id extra current db = elim (claim now id extra current db) [
  | none ↦ (none, db)
  | some (claimed, taken) ↦ finish id current claimed (pay_deposit claimed taken)
]

-- `creditDeposit`; `extra` adds the entries of its last argument.
unfoldable pub credit_deposit : ℕ → ℕ → (Metadata → Metadata) → Store → Option Deposit × Store
credit_deposit now id extra db = elim (first_where (can_credit id) db.deposits) [
  | none ↦ (none, db)
  | some current ↦ credit_read now id extra current db
]

unfoldable pub flag_row : ℕ → List Reason → (Metadata → Metadata) → Metadata → Deposit → Deposit
flag_row now reasons extra read d = record d {
  status = review;
  metadata = record (extra read) {
    needs_review = true;
    review_reasons = reasons;
    flagged_at = some now;
  };
}

abbrev pub can_flag : ℕ → Deposit → Bool
can_flag id d = d.id == id && is_pending d.status

-- `flagDepositForReview`; its result is not used.
unfoldable pub flag_deposit_for_review : ℕ → ℕ → List Reason → (Metadata → Metadata) → Store → Store
flag_deposit_for_review now id reasons extra db = elim (first_where (has_id id) db.deposits) [
  | none ↦ db
  | some current ↦
      if is_pending current.status
      then change_deposits (can_flag id) (flag_row now reasons extra current.metadata) db
      else db
]

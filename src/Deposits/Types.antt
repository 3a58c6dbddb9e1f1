-- ===== src/Deposits/Types.antt =====
-- The rows of `sminkTransactions` whose type is `deposit` (libs/db/src/schema.ts), with the parts of
-- their metadata that libs/wallet/src/deposits reads or writes. Keys and addresses are only
-- compared, so they are numbers; times are milliseconds; counts of blocks are naturals.
use crispy_enigma.Base.{ℕ, Bool, List, Option}
use crispy_enigma.Base.Int.{ℤ}
use crispy_enigma.Number.{Number}

-- The keys of `COIN_QUOTE`
pub data Coin : Type 0 where
  btc eth usdt usdc sol ltc : Coin

pub data DepositStatus : Type 0 where
  pending review confirmed failed cancelled : DepositStatus

pub data Reason : Type 0 where
  amount_mismatch : Reason
  expired_payment : Reason
  shared_address_collision : Reason
  new_account_large : Reason
  large_first_deposit : Reason
  rapid_deposits : Reason

-- The hash of a transaction on its chain, or `sim_` and the deposit's key.
pub data TxHash : Type 0 where
  on_chain : ℕ → TxHash
  simulated : ℕ → TxHash

-- The object at `metadata.simulate`.
pub record Simulate : Type 0 where
  pub amount : Number
  pub hash : Option TxHash
  pub confirmations : Option ℕ
  pub appear_at : Option ℕ
  pub ticked_at : Option ℕ

-- `metadata`; an absent key is `none`. `expires_at` is the time that `Date.parse` reads, if any.
pub record Metadata : Type 0 where
  pub expires_at : Option ℕ
  pub required_confirmations : Option ℕ
  pub match_window : Option Number
  pub tx_hash : Option TxHash
  pub received_crypto : Option Number
  pub confirmations : Option ℕ
  pub from_address : Option ℕ
  pub simulate : Option Simulate
  pub needs_review : Bool
  pub review_reasons : List Reason
  pub credited_at : Option ℕ
  pub flagged_at : Option ℕ
  pub cancelled_as_expired : Bool

-- A coin that is missing, and one that has no quote, are `none`. `amount_crypto` is the number that
-- `Number` reads from the column; the null column reads as 0.
pub record Deposit : Type 0 where
  pub id : ℕ
  pub user : ℕ
  pub reference : ℕ
  pub status : DepositStatus
  pub amount : ℤ
  pub balance_after : Option ℤ
  pub coin : Option Coin
  pub network : ℕ
  pub address : Option ℕ
  pub amount_crypto : Number
  pub metadata : Metadata
  pub created_at : ℕ
  pub user_created_at : ℕ
  pub completed_at : Option ℕ

-- `IncomingTx` of libs/wallet/src/deposits/chain.ts
pub record IncomingTx : Type 0 where
  pub hash : TxHash
  pub amount : Number
  pub confirmations : ℕ
  pub from_address : Option ℕ

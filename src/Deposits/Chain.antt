-- ===== src/Deposits/Chain.antt =====
-- libs/wallet/src/deposits/chain.ts: the payments to an address, from what the explorers answer.
-- Answers are parameters, `none` where the request fails. Addresses and networks are keys; `lower`
-- is the key of an address in lower case. Amounts of the chains are the numbers that `Number` reads.
-- The times of payments, which nothing reads, are left out.
use crispy_enigma.Base.{
  ℕ, ◌+◌, ◌-◌, ◌^◌, List, [], ◌∷◌, map, take, Bool, true, false, ◌&&◌, if◌then◌else◌, Option, none,
  some, ◌==◌, keep, get_elem?,
}
use crispy_enigma.Number.{Number, whole, add, sub, div, le}
use crispy_enigma.Deposits.Types.{Coin, TxHash, IncomingTx}

pub record Output : Type 0 where
  pub value : Number
  pub address : Option ℕ

-- `status.block_height`; an absent one and 0 are `none`.
pub record BtcTx : Type 0 where
  pub txid : TxHash
  pub height : Option ℕ
  pub outputs : List Output

-- The symbol of a token in upper case.
pub data Symbol : Type 0 where
  usdt usdc other : Symbol

pub record EthTx : Type 0 where
  pub hash : TxHash
  pub value : Number
  pub confirmations : Option ℕ
  pub sender : Option ℕ
  pub recipient : Option ℕ

pub record TokenTx : Type 0 where
  pub hash : TxHash
  pub value : Option Number
  pub decimals : Option ℕ
  pub sender : Option ℕ
  pub recipient : Option ℕ
  pub symbol : Option Symbol

pub record TronTx : Type 0 where
  pub hash : TxHash
  pub value : Number
  pub decimals : Option ℕ
  pub sender : Option ℕ
  pub symbol : Option Symbol

-- Keys without an address are `none`.
pub record SolTx : Type 0 where
  pub keys : List (Option ℕ)
  pub pre_balances : List Number
  pub post_balances : List Number

abbrev pub is_at : ℕ → Option ℕ → Bool
is_at address none = false
is_at address (some a) = a == address

abbrev pub is_symbol : Symbol → Option Symbol → Bool
is_symbol Symbol.usdt (some Symbol.usdt) = true
is_symbol Symbol.usdc (some Symbol.usdc) = true
is_symbol a b = false

-- `(symbol || "USDT").toUpperCase() === "USDT"`
abbrev pub is_tether : Option Symbol → Bool
is_tether none = true
is_tether symbol = is_symbol Symbol.usdt symbol

abbrev pub number_or : Number → Option Number → Number
number_or d none = d
number_or d (some x) = x

abbrev pub count_or : ℕ → Option ℕ → ℕ
count_or d none = d
count_or d (some n) = n

abbrev pub sum_from : Number → List Output → Number
sum_from sum [] = sum
sum_from sum (out ∷ outs) = sum_from (add sum out.value) outs

-- `Math.max(0, tip - height + 1)`: subtraction stops at 0.
abbrev pub confirmations_at : ℕ → Option ℕ → ℕ
confirmations_at tip none = 0
confirmations_at tip (some height) = tip + 1 - height

-- What a transaction pays to the address.
unfoldable pub btc_received : ℕ → BtcTx → Number
btc_received address tx = sum_from (whole 0) (keep (λ out. is_at address out.address) tx.outputs)

unfoldable pub btc_payment : ℕ → ℕ → BtcTx → IncomingTx
btc_payment tip address tx = record {
  hash = tx.txid;
  amount = div (btc_received address tx) (whole 100_000_000);
  confirmations = confirmations_at tip tx.height;
  from_address = none;
}

-- `flatMap` of `btcFamily`
unfoldable pub btc_payments : ℕ → ℕ → List BtcTx → List IncomingTx
btc_payments tip address [] = []
btc_payments tip address (tx ∷ txs) =
    let rest = btc_payments tip address txs in
    if le (btc_received address tx) (whole 0) then rest else btc_payment tip address tx ∷ rest

-- `btcFamily`: both requests must succeed.
unfoldable pub btc_family : Option ℕ → Option (List BtcTx) → ℕ → Option (List IncomingTx)
btc_family none txs address = none
btc_family (some tip) none address = none
btc_family (some tip) (some txs) address = some (btc_payments tip address txs)

abbrev pub is_at_lower : (ℕ → ℕ) → ℕ → Option ℕ → Bool
is_at_lower lower address none = false
is_at_lower lower address (some a) = lower a == lower address

abbrev pub eth_payment : EthTx → IncomingTx
eth_payment tx = record {
  hash = tx.hash;
  amount = div tx.value (whole (10 ^ 18));
  confirmations = count_or 0 tx.confirmations;
  from_address = tx.sender;
}

unfoldable pub eth_native : (ℕ → ℕ) → Option (List EthTx) → ℕ → Option (List IncomingTx)
eth_native lower none address = none
eth_native lower (some txs) address =
    some (map eth_payment (keep (λ tx. is_at_lower lower address tx.recipient) txs))

-- `10 ** decimals` is exact for the decimals of tokens.
abbrev pub token_payment : TokenTx → IncomingTx
token_payment tx = record {
  hash = tx.hash;
  amount = div (number_or (whole 0) tx.value) (whole (10 ^ count_or 6 tx.decimals));
  confirmations = 12;
  from_address = tx.sender;
}

unfoldable pub eth_token : (ℕ → ℕ) → Option (List TokenTx) → ℕ → Symbol → Option (List IncomingTx)
eth_token lower none address symbol = none
eth_token lower (some txs) address symbol = some (
    map token_payment
      (keep (λ tx. is_symbol symbol tx.symbol && is_at_lower lower address tx.recipient) txs))

abbrev pub tron_payment : TronTx → IncomingTx
tron_payment tx = record {
  hash = tx.hash;
  amount = div tx.value (whole (10 ^ count_or 6 tx.decimals));
  confirmations = 12;
  from_address = tx.sender;
}

unfoldable pub usdt_trc20 : Option (List TronTx) → Option (List IncomingTx)
usdt_trc20 none = none
usdt_trc20 (some txs) = some (map tron_payment (keep (λ tx. is_tether tx.symbol) txs))

-- `keys.findIndex`, counted from `i` on
abbrev pub index_from : ℕ → ℕ → List (Option ℕ) → Option ℕ
index_from i address [] = none
index_from i address (key ∷ keys) =
    let rest = index_from (i + 1) address keys in if is_at address key then some i else rest

-- The change of the address's balance; `none` if the transaction does not name it.
unfoldable pub sol_delta : ℕ → SolTx → Option Number
sol_delta address tx = elim (index_from 0 address tx.keys) [
  | none ↦ none
  | some i ↦
      let pre = number_or (whole 0) (get_elem? tx.pre_balances i) in
      let post = number_or (whole 0) (get_elem? tx.post_balances i) in
      some (div (sub post pre) (whole 1_000_000_000))
]

abbrev pub sol_add : TxHash → Option Number → List IncomingTx → List IncomingTx
sol_add signature none rest = rest
sol_add signature (some delta) rest =
    if le delta (whole 0)
    then rest
    else record { hash = signature; amount = delta; confirmations = 32; from_address = none } ∷ rest

abbrev pub sol_next :
    ℕ → TxHash → Option SolTx → Option (List IncomingTx) → Option (List IncomingTx)
sol_next address signature none rest = none
sol_next address signature (some tx) none = none
sol_next address signature (some tx) (some rest) =
    some (sol_add signature (sol_delta address tx) rest)

-- The loop over the signatures; a request that fails ends it.
unfoldable pub sol_payments : (TxHash → Option SolTx) → ℕ → List TxHash → Option (List IncomingTx)
sol_payments transaction address [] = some []
sol_payments transaction address (signature ∷ signatures) =
    sol_next address signature (transaction signature) (sol_payments transaction address signatures)

unfoldable pub solana :
    Option (List TxHash) → (TxHash → Option SolTx) → ℕ → Option (List IncomingTx)
solana none transaction address = none
solana (some signatures) transaction address = sol_payments transaction address (take 12 signatures)

-- What the explorers answer for an address.
pub record Explorers : Type 0 where
  pub lower : ℕ → ℕ
  pub names_trc : ℕ → Bool
  pub btc_tip : Option ℕ
  pub btc_txs : ℕ → Option (List BtcTx)
  pub ltc_tip : Option ℕ
  pub ltc_txs : ℕ → Option (List BtcTx)
  pub eth_txs : ℕ → Option (List EthTx)
  pub token_txs : ℕ → Option (List TokenTx)
  pub tron_txs : ℕ → Option (List TronTx)
  pub sol_signatures : ℕ → Option (List TxHash)
  pub sol_transaction : TxHash → Option SolTx

-- `listIncoming`, by the coin, the network and the address.
unfoldable pub list_incoming : Explorers → Coin → ℕ → ℕ → Option (List IncomingTx)
list_incoming net Coin.btc network address = btc_family net.btc_tip (net.btc_txs address) address
list_incoming net Coin.ltc network address = btc_family net.ltc_tip (net.ltc_txs address) address
list_incoming net Coin.eth network address = eth_native net.lower (net.eth_txs address) address
list_incoming net Coin.usdc network address =
    eth_token net.lower (net.token_txs address) address Symbol.usdc
list_incoming net Coin.usdt network address =
    if net.names_trc network
    then usdt_trc20 (net.tron_txs address)
    else eth_token net.lower (net.token_txs address) address Symbol.usdt
list_incoming net Coin.sol network address =
    solana (net.sol_signatures address) net.sol_transaction address

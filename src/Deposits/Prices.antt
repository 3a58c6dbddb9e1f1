-- ===== src/Deposits/Prices.antt =====
-- `usdPrice` and `quoteCryptoAmount` of libs/wallet/src/deposits/prices.ts. The price that the
-- request answers is an input; `none` stands for a failure of it.
use crispy_enigma.Base.{ℕ, suc, List, length, not, ◌||◌, if◌then◌else◌, Option, none, some}
use crispy_enigma.Number.{Number, whole, div, le, is_finite}
use crispy_enigma.Deposits.Types.{Coin}
use crispy_enigma.Deposits.Coins.{
  coin_quote, round_crypto, match_window_for, uniqueness_step_for, allocate_unique_amount,
}

-- The checks of `usdPrice`; `none` is thrown.
unfoldable pub usd_price : Option Number → Option Number
usd_price none = none
usd_price (some price) = if not (is_finite price) || le price (whole 0) then none else some price

pub record Quoted : Type 0 where
  pub amount_crypto : Number
  pub exchange_rate : Number
  pub confirmations : ℕ
  pub decimals : ℕ
  pub step : Number
  pub match_window : Number

unfoldable pub quote_of : Coin → Number → Number → Quoted
quote_of coin rate amount_crypto =
    let meta = coin_quote coin in
    let quoted = round_crypto amount_crypto meta.decimals in
    record {
      amount_crypto = quoted;
      exchange_rate = round_crypto rate 8;
      confirmations = meta.confirmations;
      decimals = meta.decimals;
      step = uniqueness_step_for coin quoted;
      match_window = match_window_for coin quoted;
    }

-- `quoteCryptoAmount` at a rate: the search for a free amount has one try more than used amounts.
unfoldable pub quote_at : Coin → Number → Number → List Number → Option Quoted
quote_at coin rate amount_usd used =
    let base = div amount_usd rate in
    elim (allocate_unique_amount (suc (length used)) base used (uniqueness_step_for coin base)
      (coin_quote coin).decimals) [
        | none ↦ none
        | some amount_crypto ↦ some (quote_of coin rate amount_crypto)
      ]

unfoldable pub quote_crypto_amount : Coin → Option Number → Number → List Number → Option Quoted
quote_crypto_amount coin price amount_usd used = elim (usd_price price) [
  | none ↦ none
  | some rate ↦ quote_at coin rate amount_usd used
]

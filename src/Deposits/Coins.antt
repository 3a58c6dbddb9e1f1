-- ===== src/Deposits/Coins.antt =====
-- libs/wallet/src/deposits/coins.ts: the quotes of coins.
use crispy_enigma.Base.{
  ℕ, zero, suc, ◌^◌, List, [], ◌∷◌, map, Bool, false, not, ◌||◌, if◌then◌else◌, Option, none, some,
}
use crispy_enigma.Number.{
  Number, whole, decimal, add, sub, mul, div, le, same, abs, round, max_of, is_finite,
}
use crispy_enigma.Deposits.Types.{Coin, btc, eth, usdt, usdc, sol, ltc}

pub record CoinQuote : Type 0 where
  pub decimals : ℕ
  pub floor : Number
  pub tolerance : Number
  pub confirmations : ℕ

-- `COIN_QUOTE`, without the names for the price service.
unfoldable pub coin_quote : Coin → CoinQuote
coin_quote btc = record {
  decimals = 8;
  floor = decimal 1 1_000_000;
  tolerance = decimal 15 100;
  confirmations = 3;
}
coin_quote eth = record {
  decimals = 8;
  floor = decimal 1 100_000;
  tolerance = decimal 15 100;
  confirmations = 12;
}
coin_quote usdt = record {
  decimals = 6;
  floor = decimal 2 100;
  tolerance = decimal 15 1_000;
  confirmations = 12;
}
coin_quote usdc = record {
  decimals = 6;
  floor = decimal 2 100;
  tolerance = decimal 15 1_000;
  confirmations = 12;
}
coin_quote sol = record {
  decimals = 9;
  floor = decimal 1 1_000;
  tolerance = decimal 8 100;
  confirmations = 32;
}
coin_quote ltc = record {
  decimals = 8;
  floor = decimal 1 100_000;
  tolerance = decimal 15 100;
  confirmations = 6;
}

-- `10 ** decimals` is exact for the decimals of all coins.
unfoldable pub round_crypto : Number → ℕ → Number
round_crypto value decimals =
    let factor = whole (10 ^ decimals) in div (round (mul value factor)) factor

unfoldable pub match_window_for : Coin → Number → Number
match_window_for coin expected =
    let meta = coin_quote coin in
    if not (is_finite expected) || le expected (whole 0)
    then meta.floor
    else max_of meta.floor (mul expected meta.tolerance)

unfoldable pub uniqueness_step_for : Coin → Number → Number
uniqueness_step_for coin expected =
    round_crypto (mul (match_window_for coin expected) (decimal 22 10)) (coin_quote coin).decimals

-- `taken.has(amount)`; no amount here is NaN or -0.
unfoldable pub has_amount : List Number → Number → Bool
has_amount [] amount = false
has_amount (x ∷ xs) amount = same x amount || has_amount xs amount

-- The `while` loop; `none` when the fuel is used up.
unfoldable pub next_free : ℕ → List Number → Number → Number → ℕ → Option Number
next_free zero taken amount step decimals = none
next_free (suc fuel) taken amount step decimals =
    let rest = next_free fuel taken (round_crypto (add amount step) decimals) step decimals in
    if has_amount taken amount then rest else some amount

unfoldable pub allocate_unique_amount : ℕ → Number → List Number → Number → ℕ → Option Number
allocate_unique_amount fuel base used step decimals =
    next_free fuel (map (λ value. round_crypto value decimals) used)
      (round_crypto (max_of step base) decimals) step decimals

pub data Kind : Type 0 where
  matches near ignored : Kind

-- `classifyReceived`, with "match", "review" and "ignore" as the three kinds.
unfoldable pub classify_received : Number → Number → Coin → Kind
classify_received expected received coin =
    if not (is_finite expected) || not (is_finite received) || le expected (whole 0)
    then ignored
    else let delta = abs (sub expected received) in
      if le delta (match_window_for coin expected)
      then matches
      else if le (div delta expected) (decimal 1 2)
      then near
      else ignored

-- ===== src/Wallet/Money.antt =====
-- Money: `roundMoney` of libs/wallet/src/ids.ts, and the numeric columns of libs/db/src/schema.ts.
-- A column with two decimals is its count of cents, one with four its count of ten-thousandths.
use crispy_enigma.Base.{Option, none, some}
use crispy_enigma.Base.Int.{ℤ, pos}
use crispy_enigma.Number.{Number, whole, mul, div, round, to_fixed, decimal_ℤ}

unfoldable pub round_money : Number → Number
round_money value = div (round (mul value (whole 100))) (whole 100)

-- What a text that `toFixed` makes of a finite number stands for in a column.
column : Option ℤ → ℤ
column none = pos 0
column (some z) = z

-- `x.toFixed(2)` and `x.toFixed(4)` as a column.
unfoldable pub cents : Number → ℤ
unfolding column
cents x = column (to_fixed 100 x)

unfoldable pub ten_thousandths : Number → ℤ
unfolding column
ten_thousandths x = column (to_fixed 10_000 x)

-- `Number` of a column
unfoldable pub from_cents : ℤ → Number
from_cents z = decimal_ℤ z 100

unfoldable pub from_ten_thousandths : ℤ → Number
from_ten_thousandths z = decimal_ℤ z 10_000

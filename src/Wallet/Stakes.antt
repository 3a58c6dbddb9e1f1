-- ===== src/Wallet/Stakes.antt =====
-- The stakes that `parseStake` accepts.
use crispy_enigma.Base.{◌≡◌, refl, sym, Bool, true, false, not, ◌||◌, if◌then◌else◌, arith}
use crispy_enigma.Number.{Number, whole, lt, le, is_finite}
use crispy_enigma.Wallet.Money.{round_money}
use crispy_enigma.Wallet.Reply.{Message, fail, validation, ok, ok-injective}
use crispy_enigma.Wallet.Guards.{parse_stake}

-- A finite amount above zero and within the game's limits.
pub record IsStake (min_bet max_bet stake : Number) : Type 0 where
  pub finite : is_finite stake ≡ true
  pub above_zero : le stake (whole 0) ≡ false
  pub enough : lt stake min_bet ≡ false
  pub few : lt max_bet stake ≡ false

-- Past three failures.
chosen :
    (bad small large : Bool) (a b c : Message) (x stake : Number)
    → (if bad
        then fail a validation
        else if small
        then fail b validation
        else if large
        then fail c validation
        else ok x)
      ≡ ok stake
    → (x ≡ stake) × (bad ≡ false) × (small ≡ false) × (large ≡ false)
chosen true small large a b c x stake h = cc
chosen false true large a b c x stake h = cc
chosen false false true a b c x stake h = cc
chosen false false false a b c x stake h = (ok-injective x stake h, refl, refl, refl)

-- An accepted stake is the input rounded to cents, finite, above zero, and neither below the game's
-- minimum bet nor above its maximum.
pub parse_stake-IsStake :
    (stake_input min_bet max_bet stake : Number)
    → parse_stake stake_input min_bet max_bet ≡ ok stake
    → (stake ≡ round_money stake_input) × IsStake min_bet max_bet stake
unfolding parse_stake
parse_stake-IsStake stake_input min_bet max_bet stake h =
    let x = round_money stake_input in
    let (same, bad, small, large) =
      chosen (not (is_finite x) || le x (whole 0)) (lt x min_bet) (lt max_bet x) _ _ _ x stake h in
    let fits : IsStake min_bet max_bet x = record {
      finite = ground (arith, bad);
      above_zero = ground (arith, bad);
      enough = small;
      few = large;
    } in
    (sym same, rw same at fits)

-- ===== src/Wallet/Store.antt =====
-- The tables of libs/db/src/schema.ts that the play service reads and writes. Keys (users, games,
-- sessions, bets, references) are only compared, so they are numbers; a time is a number too. Columns that no operation here
-- reads or that only note the time of a change are left out.
use Prim.Native.String.{String}
use crispy_enigma.Base.{
  ℕ, List, [], ◌∷◌, ◌++◌, Bool, true, false, if◌then◌else◌, Option, none, some, ◌==◌,
}
use crispy_enigma.Base.Int.{ℤ, pos}
use crispy_enigma.Number.{Number}
use crispy_enigma.Contracts.{GameSlug, Selection, Outcome}
use crispy_enigma.Deposits.Types.{Deposit}
use crispy_enigma.Engine.Control.{ControlRule, Difficulties}

pub record Wallet : Type 0 where
  pub user : ℕ
  pub balance : ℤ
  pub bonus_balance : ℤ
  pub locked_balance : ℤ
  pub total_wagered : ℤ
  pub total_won : ℤ
  pub total_deposited : ℤ
  pub is_locked : Bool
  pub difficulties : Difficulties

-- A game; its numeric columns are the numbers that `Number` reads from them.
pub record Game : Type 0 where
  pub id : ℕ
  pub slug : GameSlug
  pub is_active : Bool
  pub under_maintenance : Bool
  pub min_bet : Number
  pub max_bet : Number
  pub house_edge : Number
  pub max_multiplier : Number
  pub difficulty : Number

pub record Session : Type 0 where
  pub id : ℕ
  pub user : ℕ
  pub game : ℕ
  pub bet_count : ℕ
  pub total_staked : ℤ
  pub total_won : ℤ
  pub started_at : ℕ
  pub ended_at : Option ℕ

pub data BetStatus : Type 0 where
  «open» won lost cashed_out void : BetStatus

abbrev pub is_open : BetStatus → Bool
is_open «open» = true
is_open status = false

pub record Bet : Type 0 where
  pub id : ℕ
  pub user : ℕ
  pub game : ℕ
  pub session : ℕ
  pub reference : ℕ
  pub stake : ℤ
  pub multiplier : ℤ
  pub payout : ℤ
  pub status : BetStatus
  pub selection : Selection
  pub outcome : Outcome
  pub server_seed : String
  pub server_seed_hash : String
  pub client_seed : String
  pub nonce : ℕ
  pub was_controlled : Bool
  pub settled_at : Option ℕ

pub data TransactionType : Type 0 where
  deposit stake payout : TransactionType

-- A ledger row of the play service, all of which are confirmed. The rows whose type is `deposit`
-- are of a type of their own.
pub record Transaction : Type 0 where
  pub user : ℕ
  pub type : TransactionType
  pub amount : ℤ
  pub balance_after : Option ℤ
  pub reference : ℕ
  pub bet_reference : ℕ

pub record ControlRow : Type 0 where
  pub id : ℕ
  pub user : ℕ
  pub game : Option ℕ
  pub rule : ControlRule

pub record Store : Type 0 where
  pub wallets : List Wallet
  pub games : List Game
  pub sessions : List Session
  pub bets : List Bet
  pub transactions : List Transaction
  pub deposits : List Deposit
  pub excluded : List (ℕ × ℕ)
  pub controls : List ControlRow

module _ {ℓ} {A : Type ℓ} where
  -- A select with `limit(1)`.
  abbrev pub first_where : (A → Bool) → List A → Option A
  first_where test [] = none
  first_where test (x ∷ xs) = if test x then some x else first_where test xs

  -- An update of the rows that pass a test.
  abbrev pub update_where : (A → Bool) → (A → A) → List A → List A
  update_where test change [] = []
  update_where test change (x ∷ xs) = (if test x then change x else x) ∷ update_where test change xs

-- `getOrCreate` of libs/wallet/src/wallet.service.ts: the first wallet of the user, or a new one
-- with the columns' defaults. Nothing runs between its statements here, so an insert never meets
-- the wallet that another request has just made, and the callers' "Wallet unavailable" is not met.
unfoldable pub new_wallet : ℕ → Wallet
new_wallet user = record {
  user = user;
  balance = pos 0;
  bonus_balance = pos 0;
  locked_balance = pos 0;
  total_wagered = pos 0;
  total_won = pos 0;
  total_deposited = pos 0;
  is_locked = false;
  difficulties = record { difficulty = none; game_difficulties = λ slug. none };
}

unfoldable pub get_or_create : ℕ → Store → Wallet × Store
get_or_create user db = elim (first_where (λ w. w.user == user) db.wallets) [
  | some w ↦ (w, db)
  | none ↦ (new_wallet user, record db { wallets = db.wallets ++ (new_wallet user ∷ []) })
]

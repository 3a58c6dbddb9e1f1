-- ===== src/Deposits/Machine.antt =====
-- The states of a deposit, and the moves that libs/wallet/src/deposits makes between them.
use crispy_enigma.Base.{◌≡◌, refl, ◌∙◌, List, [], ◌∷◌, Bool, true, inl, inr, Bool-cases}
use crispy_enigma.Wallet.Store.{update_where}
use crispy_enigma.Deposits.Types.{DepositStatus, pending, review, confirmed, cancelled, Deposit}

-- The specification: a deposit waits, may be held for review, and ends credited or cancelled.
pub data Move : DepositStatus → DepositStatus → Type 0 where
  hold : Move pending review
  credit : Move pending confirmed
  release : Move review confirmed
  cancel : Move pending cancelled

pub data Moves (s : DepositStatus) : DepositStatus → Type 0 where
  stay : Moves s s
  go_on : {t u : DepositStatus} → Moves s t → Move t u → Moves s u

pub Moves-trans : {s t u : DepositStatus} → Moves s t → Moves t u → Moves s u
Moves-trans p stay = p
Moves-trans p (go_on q m) = go_on (Moves-trans p q) m

-- A row keeps its key, player, amount and reference, and moves as the specification says.
pub record Evolves (d e : Deposit) : Type 0 where
  pub same_id : e.id ≡ d.id
  pub same_user : e.user ≡ d.user
  pub same_reference : e.reference ≡ d.reference
  pub same_amount : e.amount ≡ d.amount
  pub moves : Moves d.status e.status

-- Row by row, in place: none appears and none is lost.
abbrev pub Follow : List Deposit → List Deposit → Type 0
Follow [] [] = Unit
Follow (d ∷ ds) (e ∷ es) = Evolves d e × Follow ds es
Follow ds es = ⊥

pub Evolves-refl : (d : Deposit) → Evolves d d
Evolves-refl d = record {
  same_id = refl;
  same_user = refl;
  same_reference = refl;
  same_amount = refl;
  moves = stay;
}

pub Follow-refl : (ds : List Deposit) → Follow ds ds
Follow-refl [] = tt
Follow-refl (d ∷ ds) = (Evolves-refl d, Follow-refl ds)

Evolves-trans : (d e f : Deposit) → Evolves d e → Evolves e f → Evolves d f
Evolves-trans d e f p q = record {
  same_id = q.same_id ∙ p.same_id;
  same_user = q.same_user ∙ p.same_user;
  same_reference = q.same_reference ∙ p.same_reference;
  same_amount = q.same_amount ∙ p.same_amount;
  moves = Moves-trans p.moves q.moves;
}

pub Follow-trans : (ds es fs : List Deposit) → Follow ds es → Follow es fs → Follow ds fs
Follow-trans [] [] [] p q = tt
Follow-trans [] [] (f ∷ fs) p q = elim q [ ]
Follow-trans [] (e ∷ es) fs p q = elim p [ ]
Follow-trans (d ∷ ds) [] fs p q = elim p [ ]
Follow-trans (d ∷ ds) (e ∷ es) [] p q = elim q [ ]
Follow-trans (d ∷ ds) (e ∷ es) (f ∷ fs) p q =
    (Evolves-trans d e f p.0 q.0, Follow-trans ds es fs p.1 q.1)

pub update_where-Follow :
    (test : Deposit → Bool) (change : Deposit → Deposit) (ds : List Deposit)
    → ((d : Deposit) → test d ≡ true → Evolves d (change d))
    → Follow ds (update_where test change ds)
update_where-Follow test change [] h = tt
update_where-Follow test change (d ∷ ds) h = elim (Bool-cases (test d)) [
  | inl here ↦ rw here (h d here, update_where-Follow test change ds h)
  | inr other ↦ rw other (Evolves-refl d, update_where-Follow test change ds h)
]

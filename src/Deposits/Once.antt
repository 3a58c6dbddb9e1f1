-- ===== src/Deposits/Once.antt =====
-- A deposit is credited once.
use crispy_enigma.Base.{◌≡◌, refl, ℕ, List, [], ◌∷◌, none, some, inl, inr, Option-cases, arith}
use crispy_enigma.Wallet.Store.{Wallet, Store, first_where, update_where}
use crispy_enigma.Deposits.Types.{Metadata, Deposit}
use crispy_enigma.Deposits.Credit.{can_credit, claim_row, claim, credit_read, credit_deposit}
use crispy_enigma.Deposits.CreditMoves.{noted_at, credit_read_paid}

none_left :
    (now id : ℕ) (extra : Metadata → Metadata) (read : Metadata) (w : Wallet) (ds : List Deposit)
    → first_where
        (can_credit id)
        (noted_at id w (update_where (can_credit id) (claim_row now extra read) ds))
      ≡ none
unfolding claim_row
none_left now id extra read w [] = refl
none_left now id extra read w (d ∷ ds) = ground (arith, none_left now id extra read w ds)

module _ (now id : ℕ) (extra : Metadata → Metadata) where
  -- No second claim.
  refused :
      (current : Deposit) (db : Store)
      → first_where (can_credit id) db.deposits ≡ none
      → (credit_deposit now id extra db ≡ (none, db))
        × (credit_read now id extra current db ≡ (none, db))
  unfolding credit_deposit credit_read claim
  refused current db e = (rw (e, credit_deposit) refl, rw (e, claim, credit_read) refl)

  nothing_left_read :
      (current : Deposit) (db : Store) (d : Deposit)
      → (credit_read now id extra current db).0 ≡ some d
      → first_where (can_credit id) (credit_read now id extra current db).1.deposits ≡ none
  unfolding credit_read
  nothing_left_read current db d h = elim (Option-cases (claim now id extra current db)) [
    | inl e ↦ let impossible = rw (e, credit_read) at h in cc
    | inr ((claimed, taken), e) ↦
        let (w, deposits) = credit_read_paid now id extra current claimed db taken e in
        rw deposits (none_left now id extra current.metadata w db.deposits)
  ]

  nothing_left :
      (db : Store) (d : Deposit)
      → (credit_deposit now id extra db).0 ≡ some d
      → first_where (can_credit id) (credit_deposit now id extra db).1.deposits ≡ none
  unfolding credit_deposit
  nothing_left db d h = elim (Option-cases (first_where (can_credit id) db.deposits)) [
    | inl e ↦ let impossible = rw (e, credit_deposit) at h in cc
    | inr (current, e) ↦
        let paid = rw (e, credit_deposit) at h in
        rw (e, credit_deposit) (nothing_left_read current db d paid)
  ]

-- Once a deposit is credited, every further credit of it returns null and changes nothing, and so
-- does one that had read the deposit, as `current`, before it was credited.
pub credit_deposit_once :
    (now id later : ℕ) (extra extra' : Metadata → Metadata) (current d : Deposit) (db : Store)
    → (credit_deposit now id extra db).0 ≡ some d
    → let after = (credit_deposit now id extra db).1 in
      (credit_deposit later id extra' after ≡ (none, after))
      × (credit_read later id extra' current after ≡ (none, after))
credit_deposit_once now id later extra extra' current d db h =
    refused later id extra' current (credit_deposit now id extra db).1
      (nothing_left now id extra db d h)

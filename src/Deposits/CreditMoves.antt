-- ===== src/Deposits/CreditMoves.antt =====
-- Crediting and flagging move deposits as the specification allows, and a credit pays.
use mathlib.Core.Option.{some-injective}
use crispy_enigma.Base.{
  ◌≡◌, refl, sym, ◌∙◌, ap, ℕ, List, [], ◌∷◌, ◌++◌, Bool, true, if◌then◌else◌, none, some, inl, inr,
  Bool-cases, Option-cases, arith, ◌==◌, ==_refl,
}
use crispy_enigma.Wallet.Money.{cents, from_cents}
use crispy_enigma.Wallet.Store.{Wallet, Store, first_where, update_where, new_wallet}
use crispy_enigma.Wallet.Rows.{first_where-update}
use crispy_enigma.Deposits.Types.{
  DepositStatus, pending, review, confirmed, failed, cancelled, Reason, Metadata, Deposit,
}
use crispy_enigma.Deposits.Credit.{
  is_creditable, is_pending, has_id, can_credit, can_flag, ensure_wallet, add_deposit, claim_row,
  claim, finish, pay_deposit, credit_read, credit_deposit, flag_row, flag_deposit_for_review,
}
use crispy_enigma.Deposits.Machine.{
  Move, hold, credit, release, Moves, stay, go_on, Evolves, Follow, Follow-refl, Follow-trans,
  update_where-Follow,
}

creditable-Moves : (s : DepositStatus) → is_creditable s ≡ true → Moves s confirmed
creditable-Moves pending h = go_on stay credit
creditable-Moves review h = go_on stay release
creditable-Moves confirmed h = cc
creditable-Moves failed h = cc
creditable-Moves cancelled h = cc

-- A move of a pending deposit.
pub pending-Moves : (s t : DepositStatus) → Move pending t → is_pending s ≡ true → Moves s t
pending-Moves pending t m h = go_on stay m
pending-Moves review t m h = cc
pending-Moves confirmed t m h = cc
pending-Moves failed t m h = cc
pending-Moves cancelled t m h = cc

claim_row-Evolves :
    (now id : ℕ) (extra : Metadata → Metadata) (read : Metadata) (d : Deposit)
    → can_credit id d ≡ true
    → Evolves d (claim_row now extra read d)
unfolding claim_row
claim_row-Evolves now id extra read d h = record {
  same_id = refl;
  same_user = refl;
  same_reference = refl;
  same_amount = refl;
  moves = creditable-Moves d.status (ground arith);
}

-- The wallet that a payment goes to is there.
pub first_where-append_one :
    (test : Wallet → Bool) (ws : List Wallet) (w : Wallet)
    → first_where test ws ≡ none
    → test w ≡ true
    → first_where test (ws ++ (w ∷ [])) ≡ some w
first_where-append_one test [] w e h = rw h refl
first_where-append_one test (v ∷ ws) w e h = ground (arith, first_where-append_one test ws w)

pub ensure_wallet-found :
    (user : ℕ) (db : Store)
    → (w : Wallet) × (first_where (λ w. w.user == user) (ensure_wallet user db).wallets ≡ some w)
unfolding ensure_wallet new_wallet
ensure_wallet-found user db =
    let mine = λ (w : Wallet). w.user == user in
    elim (Option-cases (first_where mine db.wallets)) [
      | inl e ↦ (
        new_wallet user,
        rw (e, ensure_wallet)
            (first_where-append_one mine db.wallets (new_wallet user) e (==_refl user)),
      )
      | inr (w, e) ↦ (w, rw (e, ensure_wallet) e)
    ]

pub pay_deposit-found :
    (claimed : Deposit) (db : Store)
    → (w : Wallet) × (first_where (λ w. w.user == claimed.user) (pay_deposit claimed db).wallets
        ≡ some w)
unfolding pay_deposit add_deposit
pay_deposit-found claimed db =
    let mine = λ (w : Wallet). w.user == claimed.user in
    let paid = add_deposit (cents (from_cents claimed.amount)) in
    let (w, found) = ensure_wallet-found claimed.user db in
    (
      if mine w then paid w else w,
      first_where-update mine mine paid (ensure_wallet claimed.user db).wallets (λ v. refl)
          ∙ rw found refl,
    )

ensure_wallet-deposits : (user : ℕ) (db : Store) → (ensure_wallet user db).deposits ≡ db.deposits
unfolding ensure_wallet
ensure_wallet-deposits user db =
    elim (Option-cases (first_where (λ w. w.user == user) db.wallets)) [
      | inl e ↦ rw (e, ensure_wallet) refl
      | inr (w, e) ↦ rw (e, ensure_wallet) refl
    ]

pub pay_deposit-deposits :
    (claimed : Deposit) (db : Store) → (pay_deposit claimed db).deposits ≡ db.deposits
unfolding pay_deposit
pay_deposit-deposits claimed db = ensure_wallet-deposits claimed.user db

-- With a wallet there, the end of a credit only notes the balance.
abbrev pub noted_at : ℕ → Wallet → List Deposit → List Deposit
noted_at id wallet ds =
    update_where (has_id id) (λ d. record d { balance_after = some wallet.balance }) ds

pub finish-noted :
    (id : ℕ) (current claimed : Deposit) (db : Store) (w : Wallet)
    → first_where (λ w. w.user == claimed.user) db.wallets ≡ some w
    → ((finish id current claimed db).1.deposits ≡ noted_at id w db.deposits)
      × ((finish id current claimed db).1.wallets ≡ db.wallets)
unfolding finish
finish-noted id current claimed db w e =
    elim (Option-cases (first_where (has_id id) (noted_at id w db.deposits))) [
      | inl k ↦ (rw (e, finish) (rw k refl), rw (e, finish) (rw k refl))
      | inr (d, k) ↦ (rw (e, finish) (rw k refl), rw (e, finish) (rw k refl))
    ]

note-Follow : (id : ℕ) (w : Wallet) (ds : List Deposit) → Follow ds (noted_at id w ds)
note-Follow id w ds = update_where-Follow (has_id id) _ ds λ d h. record {
  same_id = refl;
  same_user = refl;
  same_reference = refl;
  same_amount = refl;
  moves = stay;
}

pub claim_lem :
    (now id : ℕ) (extra : Metadata → Metadata) (current : Deposit) (db : Store) (claimed : Deposit)
    (taken : Store)
    → claim now id extra current db ≡ some (claimed, taken)
    → (taken.deposits
        ≡ update_where (can_credit id) (claim_row now extra current.metadata) db.deposits)
      × (taken.wallets ≡ db.wallets)
unfolding claim
claim_lem now id extra current db claimed taken h =
    elim (Option-cases (first_where (can_credit id) db.deposits)) [
      | inl e ↦ let impossible = rw (e, claim) at h in cc
      | inr (row, e) ↦
          let same = ap (λ (p : Deposit × Store). p.1) (some-injective _ _ (rw (e, claim) at h)) in
          (ap (λ (s : Store). s.deposits) (sym same), ap (λ (s : Store). s.wallets) (sym same))
    ]

module _ (now id : ℕ) (extra : Metadata → Metadata) where
  -- After a claim, the rest of a credit goes through.
  pub credit_read_paid :
      (current claimed : Deposit) (db taken : Store)
      → claim now id extra current db ≡ some (claimed, taken)
      → (w : Wallet) × ((credit_read now id extra current db).1.deposits
          ≡ noted_at id w
              (update_where (can_credit id) (claim_row now extra current.metadata) db.deposits))
  unfolding credit_read
  credit_read_paid current claimed db taken e =
      let (w, found) = pay_deposit-found claimed taken in
      let (deposits, _) = finish-noted id current claimed (pay_deposit claimed taken) w found in
      let (claims, _) = claim_lem now id extra current db claimed taken e in
      (
        w,
        rw (e, credit_read)
            (deposits ∙ ap (noted_at id w) (pay_deposit-deposits claimed taken ∙ claims)),
      )

  pub credit_read-Follow :
      (current : Deposit) (db : Store)
      → Follow db.deposits (credit_read now id extra current db).1.deposits
  unfolding credit_read
  credit_read-Follow current db = elim (Option-cases (claim now id extra current db)) [
    | inl e ↦ rw (e, credit_read) (Follow-refl db.deposits)
    | inr ((claimed, taken), e) ↦
        let (w, deposits) = credit_read_paid current claimed db taken e in
        let claims =
          update_where-Follow (can_credit id) (claim_row now extra current.metadata) db.deposits
            (claim_row-Evolves now id extra current.metadata) in
        rw deposits (Follow-trans db.deposits _ _ claims (note-Follow id w _))
  ]

  pub credit_deposit-Follow :
      (db : Store) → Follow db.deposits (credit_deposit now id extra db).1.deposits
  unfolding credit_deposit
  credit_deposit-Follow db = elim (Option-cases (first_where (can_credit id) db.deposits)) [
    | inl e ↦ rw (e, credit_deposit) (Follow-refl db.deposits)
    | inr (current, e) ↦ rw (e, credit_deposit) (credit_read-Follow current db)
  ]

  pub flag_deposit-Follow :
      (reasons : List Reason) (db : Store)
      → Follow db.deposits (flag_deposit_for_review now id reasons extra db).deposits
  unfolding flag_deposit_for_review flag_row
  flag_deposit-Follow reasons db = elim (Option-cases (first_where (has_id id) db.deposits)) [
    | inl e ↦ rw (e, flag_deposit_for_review) (Follow-refl db.deposits)
    | inr (current, e) ↦ elim (Bool-cases (is_pending current.status)) [
      | inl here ↦
          rw (e, flag_deposit_for_review)
            (rw here (
              update_where-Follow (can_flag id) (flag_row now reasons extra current.metadata)
                db.deposits
                λ d h. record {
                  same_id = refl;
                  same_user = refl;
                  same_reference = refl;
                  same_amount = refl;
                  moves = pending-Moves d.status review hold (ground arith);
                }))
      | inr gone ↦ rw (e, flag_deposit_for_review) (rw gone (Follow-refl db.deposits))
    ]
  ]

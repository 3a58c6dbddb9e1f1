-- ===== src/Deposits/ScanMoves.antt =====
-- A scan moves deposits as the specification allows.
use crispy_enigma.Base.{
  ◌≡◌, refl, ℕ, List, [], ◌∷◌, Bool, true, false, not, ◌||◌, if◌then◌else◌, Option, none, some,
  arith, ltb, inl, inr, Option-cases,
}
use crispy_enigma.Wallet.Store.{Store}
use crispy_enigma.Deposits.Types.{
  Coin, Reason, amount_mismatch, cancelled, Metadata, Deposit, IncomingTx,
}
use crispy_enigma.Deposits.Credit.{has_id, can_flag, credit_deposit}
use crispy_enigma.Deposits.Watch.{
  Watch, notify, is_unchanged, note_progress, progress, cancel_row, cancel_unpaid, required_of,
}
use crispy_enigma.Deposits.Watch.Inspect.{
  Mode, Explorer, incoming_of, is_of_mode, with_payment, flag_payment, inspect_near, announce,
  settle_match, inspect_match, inspect_found, inspect_quoted, inspect, inspect_all, scan,
}
use crispy_enigma.Deposits.Machine.{
  stay, cancel, Follow, Follow-refl, Follow-trans, update_where-Follow,
}
use crispy_enigma.Deposits.CreditMoves.{pending-Moves, credit_deposit-Follow, flag_deposit-Follow}

-- The deposits of a watch follow those of a store.
abbrev pub After : Store → Watch → Type 0
After db w = Follow db.deposits w.store.deposits

if-After :
    (db : Store) (test : Bool) (v w : Watch)
    → After db v
    → After db w
    → After db (if test then v else w)
if-After db true v w p q = p
if-After db false v w p q = q

module _ (now : ℕ) (d : Deposit) where
  note_progress-After : (tx : IncomingTx) (w : Watch) → After w.store (note_progress now d tx w)
  unfolding note_progress
  note_progress-After tx w =
      if-After w.store (is_unchanged d.metadata tx) _ _ (Follow-refl w.store.deposits) (
        update_where-Follow (has_id d.id) _ w.store.deposits λ row h. record {
          same_id = refl;
          same_user = refl;
          same_reference = refl;
          same_amount = refl;
          moves = stay;
        })

  progress-After :
      (tx : IncomingTx) (required : ℕ) (silent : Bool) (w : Watch)
      → After w.store (progress now d tx required silent w)
  unfolding progress notify
  progress-After tx required silent w =
      if-After w.store (silent || is_unchanged d.metadata tx) _ _ (note_progress-After tx w)
        (note_progress-After tx w)

  cancel_unpaid-After : (required : ℕ) (w : Watch) → After w.store (cancel_unpaid now d required w)
  unfolding cancel_unpaid notify cancel_row
  cancel_unpaid-After required w =
      update_where-Follow (can_flag d.id) (cancel_row now d.metadata) w.store.deposits λ row h.
        record {
          same_id = refl;
          same_user = refl;
          same_reference = refl;
          same_amount = refl;
          moves = pending-Moves row.status cancelled cancel (ground arith);
        }

  flag_payment-After :
      (tx : IncomingTx) (required : ℕ) (reasons : List Reason) (extra : Metadata → Metadata)
      (w : Watch)
      → After w.store (flag_payment now d tx required reasons extra w)
  unfolding flag_payment notify
  flag_payment-After tx required reasons extra w =
      flag_deposit-Follow now d.id extra reasons w.store

  inspect_near-After :
      (tx : IncomingTx) (required : ℕ) (w : Watch)
      → After w.store (inspect_near now d tx required w)
  unfolding inspect_near
  inspect_near-After tx required w =
      let silent = not (ltb tx.confirmations required) in
      let noted = progress now d tx required silent w in
      let moved = progress-After tx required silent w in
      if-After w.store (ltb tx.confirmations required) _ _ moved (
        Follow-trans w.store.deposits noted.store.deposits _ moved
          (flag_payment-After tx required (amount_mismatch ∷ []) (with_payment tx) noted))

  announce-store :
      (tx : IncomingTx) (required : ℕ) (o : Option Deposit) (w : Watch)
      → (announce d tx required o w).store ≡ w.store
  unfolding announce notify
  announce-store tx required none w = refl
  announce-store tx required (some c) w = refl

  settle_match-After :
      (tx : IncomingTx) (required : ℕ) (reasons : List Reason) (w : Watch)
      → After w.store (settle_match now d tx required reasons w)
  unfolding settle_match
  settle_match-After tx required [] w =
      rw (announce-store tx required (credit_deposit now d.id (with_payment tx) w.store).0 _)
        (credit_deposit-Follow now d.id (with_payment tx) w.store)
  settle_match-After tx required (reason ∷ reasons) w =
      flag_payment-After tx required (reason ∷ reasons) _ w

  inspect_match-After :
      (coin : Coin) (all_pending : List Deposit) (tx : IncomingTx) (required : ℕ) (late : Bool)
      (w : Watch)
      → After w.store (inspect_match now coin d all_pending tx required late w)
  unfolding inspect_match
  inspect_match-After coin all_pending tx required late w =
      let silent = not (ltb tx.confirmations required) in
      let noted = progress now d tx required silent w in
      let moved = progress-After tx required silent w in
      if-After w.store (ltb tx.confirmations required) _ _ moved (
        Follow-trans w.store.deposits noted.store.deposits _ moved
          (settle_match-After tx required _ noted))

  inspect_found-After :
      (coin : Coin) (all_pending : List Deposit) (required : ℕ) (late failed : Bool)
      (match near : Option IncomingTx) (w : Watch)
      → After w.store (inspect_found now coin d all_pending required late failed match near w)
  unfolding inspect_found
  inspect_found-After coin all_pending required late failed (some tx) near w =
      if-After w.store failed _ _ (Follow-refl w.store.deposits)
        (inspect_match-After coin all_pending tx required late w)
  inspect_found-After coin all_pending required late failed none (some tx) w =
      if-After w.store failed _ _ (Follow-refl w.store.deposits) (inspect_near-After tx required w)
  inspect_found-After coin all_pending required late failed none none w =
      if-After w.store late _ _ (cancel_unpaid-After required w) (Follow-refl w.store.deposits)

module _ (explorer : Explorer) (mode : Mode) (now : ℕ) (all_pending : List Deposit) where
  inspect_quoted-After :
      (coin : Coin) (address : ℕ) (d : Deposit) (w : Watch)
      → After w.store (inspect_quoted explorer mode now coin address d all_pending w)
  unfolding inspect_quoted
  inspect_quoted-After coin address d w =
      elim (Option-cases (incoming_of explorer mode now coin address d)) [
        | inl e ↦
            rw (e, inspect_quoted)
              (inspect_found-After now d coin all_pending (required_of coin d) _ true none none w)
        | inr (txs, e) ↦
            rw (e, inspect_quoted)
              (inspect_found-After now d coin all_pending (required_of coin d) _ false _ _ w)
      ]

  inspect-After :
      (d : Deposit) (w : Watch) → After w.store (inspect explorer mode now d all_pending w)
  unfolding inspect
  inspect-After d w = elim (Option-cases d.coin) [
    | inl e ↦ rw (e, inspect) (Follow-refl w.store.deposits)
    | inr (coin, e) ↦ elim (Option-cases d.address) [
      | inl k ↦ rw (e, k, inspect) (Follow-refl w.store.deposits)
      | inr (address, k) ↦ rw (e, k, inspect) (inspect_quoted-After coin address d w)
    ]
  ]

  inspect_all-After :
      (ds : List Deposit) (w : Watch)
      → After w.store (inspect_all explorer mode now all_pending ds w)
  unfolding inspect_all
  inspect_all-After [] w = Follow-refl w.store.deposits
  inspect_all-After (d ∷ ds) w =
      let next = if is_of_mode mode d then inspect explorer mode now d all_pending w else w in
      let moved =
        if-After w.store (is_of_mode mode d) (inspect explorer mode now d all_pending w) w
          (inspect-After d w) (Follow-refl w.store.deposits) in
      Follow-trans w.store.deposits next.store.deposits _ moved (inspect_all-After ds next)

-- Whatever the explorers answer, a scan keeps every deposit in place with its key, player,
-- reference and amount, and moves its status only along the moves of the specification: from
-- pending to review, to confirmed or to cancelled, and from review to confirmed.
pub scan-Follow :
    (explorer : Explorer) (mode : Mode) (now : ℕ) (db : Store)
    → Follow db.deposits (scan explorer mode now db).store.deposits
unfolding scan
scan-Follow explorer mode now db = inspect_all-After explorer mode now _ _ _

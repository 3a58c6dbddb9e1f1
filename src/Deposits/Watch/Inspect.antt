-- ===== src/Deposits/Watch/Inspect.antt =====
-- `inspect` and `scan` of libs/wallet/src/deposits/watch.ts. What the explorers answer is a
-- parameter; `none` is a failed lookup.
use crispy_enigma.Base.{
  ℕ, List, [], ◌∷◌, ◌++◌, Bool, true, false, not, ◌&&◌, if◌then◌else◌, Option, none, some, ltb,
  keep,
}
use crispy_enigma.Number.{Number, is_finite}
use crispy_enigma.Wallet.Money.{from_cents}
use crispy_enigma.Base.Int.{pos}
use crispy_enigma.Wallet.Store.{Store}
use crispy_enigma.Deposits.Types.{
  Coin, DepositStatus, review, confirmed, Reason, amount_mismatch, TxHash, Metadata, Deposit,
  IncomingTx,
}
use crispy_enigma.Deposits.Coins.{Kind, matches, near, ignored, classify_received}
use crispy_enigma.Deposits.Credit.{is_pending, credit_deposit, flag_deposit_for_review}
use crispy_enigma.Deposits.Watch.{
  credited_mail, Watch, or_else, has_hash, quote_deadline, payment_seen, required_of, notify,
  simulated_incoming, progress, cancel_unpaid, reasons_for,
}

pub data Mode : Type 0 where
  chain simulate : Mode

-- `listIncoming`, by the coin, the network and the address.
abbrev pub Explorer : Type 0
Explorer = Coin → ℕ → ℕ → Option (List IncomingTx)

-- The payments that are found, and whether the lookup failed.
unfoldable pub incoming_of : Explorer → Mode → ℕ → Coin → ℕ → Deposit → Option (List IncomingTx)
incoming_of explorer chain now coin address d = explorer coin d.network address
incoming_of explorer simulate now coin address d =
    elim (simulated_incoming now d (required_of coin d)) [
      | none ↦ some []
      | some tx ↦ some (tx ∷ [])
    ]

abbrev pub is_kind : Kind → Kind → Bool
is_kind matches matches = true
is_kind near near = true
is_kind ignored ignored = true
is_kind a b = false

-- The first payment of a kind that is not credited yet.
unfoldable pub first_of : Kind → Coin → Number → List TxHash → List IncomingTx → Option IncomingTx
first_of kind coin expected hashes [] = none
first_of kind coin expected hashes (tx ∷ txs) =
    if not (has_hash hashes tx.hash)
      && is_finite expected
      && is_kind (classify_received expected tx.amount coin) kind
    then some tx
    else first_of kind coin expected hashes txs

-- The entries that a flag or a credit adds to the metadata.
unfoldable pub with_payment : IncomingTx → Metadata → Metadata
with_payment tx meta = record meta {
  tx_hash = some tx.hash;
  received_crypto = some tx.amount;
  confirmations = some tx.confirmations;
}

unfoldable pub with_sender : IncomingTx → Metadata → Metadata
unfolding with_payment
with_sender tx meta = record (with_payment tx meta) { from_address = tx.from_address }

unfoldable pub flag_payment :
    ℕ → Deposit → IncomingTx → ℕ → List Reason → (Metadata → Metadata) → Watch → Watch
flag_payment now d tx required reasons extra w =
    notify d review tx.confirmations required (some tx.amount) none
      (record w { store = flag_deposit_for_review now d.id reasons extra w.store })

-- A payment near the quoted amount waits for its confirmations, and for a review.
unfoldable pub inspect_near : ℕ → Deposit → IncomingTx → ℕ → Watch → Watch
inspect_near now d tx required w =
    let noted = progress now d tx required (not (ltb tx.confirmations required)) w in
    if ltb tx.confirmations required
    then noted
    else flag_payment now d tx required (amount_mismatch ∷ []) (with_payment tx) noted

-- A credit that took place is announced.
unfoldable pub announce : Deposit → IncomingTx → ℕ → Option Deposit → Watch → Watch
announce d tx required none w = w
announce d tx required (some credited) w =
    let told =
      notify d confirmed tx.confirmations required (some tx.amount)
        (some (from_cents (or_else credited.balance_after (pos 0))))
        (record w { hashes = tx.hash ∷ w.hashes }) in
    record told { sent = told.sent ++ (credited_mail credited.reference ∷ []) }

unfoldable pub settle_match : ℕ → Deposit → IncomingTx → ℕ → List Reason → Watch → Watch
settle_match now d tx required [] w =
    let (credited, store) = credit_deposit now d.id (with_payment tx) w.store in
    announce d tx required credited (record w { store = store })
settle_match now d tx required (reason ∷ reasons) w =
    flag_payment now d tx required (reason ∷ reasons) (with_sender tx) w

-- A payment of the quoted amount.
unfoldable pub inspect_match :
    ℕ → Coin → Deposit → List Deposit → IncomingTx → ℕ → Bool → Watch → Watch
inspect_match now coin d all_pending tx required late w =
    let reasons = reasons_for now coin d all_pending tx late w.store in
    let noted = progress now d tx required (not (ltb tx.confirmations required)) w in
    if ltb tx.confirmations required then noted else settle_match now d tx required reasons noted

-- What to do about the payments, if the lookup did not fail.
unfoldable pub inspect_found :
    ℕ
    → Coin
    → Deposit
    → List Deposit
    → ℕ
    → Bool
    → Bool
    → Option IncomingTx
    → Option IncomingTx
    → Watch
    → Watch
inspect_found now coin d all_pending required late failed (some tx) near_tx w =
    if failed then w else inspect_match now coin d all_pending tx required late w
inspect_found now coin d all_pending required late failed none (some tx) w =
    if failed then w else inspect_near now d tx required w
inspect_found now coin d all_pending required late failed none none w =
    if late then cancel_unpaid now d required w else w

unfoldable pub inspect_quoted :
    Explorer → Mode → ℕ → Coin → ℕ → Deposit → List Deposit → Watch → Watch
inspect_quoted explorer mode now coin address d all_pending w =
    let late = ltb (quote_deadline d.metadata d.created_at) now && not (payment_seen d.metadata) in
    elim (incoming_of explorer mode now coin address d) [
      | none ↦ inspect_found now coin d all_pending (required_of coin d) late true none none w
      | some txs ↦
          inspect_found now coin d all_pending (required_of coin d) late false
            (first_of matches coin d.amount_crypto w.hashes txs)
            (first_of near coin d.amount_crypto w.hashes txs) w
    ]

unfoldable pub inspect : Explorer → Mode → ℕ → Deposit → List Deposit → Watch → Watch
inspect explorer mode now d all_pending w = elim d.coin [
  | none ↦ w
  | some coin ↦ elim d.address [
    | none ↦ w
    | some address ↦ inspect_quoted explorer mode now coin address d all_pending w
  ]
]

abbrev pub is_chain : Mode → Bool
is_chain chain = true
is_chain simulate = false

-- A simulated deposit is left to the simulating scans, and they leave all others.
abbrev pub is_of_mode : Mode → Deposit → Bool
is_of_mode mode d = elim d.metadata.simulate [ none ↦ is_chain mode | some _ ↦ not (is_chain mode) ]

-- The loop over the deposits that were pending when the scan began.
unfoldable pub inspect_all : Explorer → Mode → ℕ → List Deposit → List Deposit → Watch → Watch
inspect_all explorer mode now all_pending [] w = w
inspect_all explorer mode now all_pending (d ∷ ds) w =
    inspect_all explorer mode now all_pending ds
      (if is_of_mode mode d then inspect explorer mode now d all_pending w else w)

newest_first : List Deposit → List Deposit → List Deposit
newest_first done [] = done
newest_first done (d ∷ ds) = newest_first (d ∷ done) ds

abbrev pub is_settled : DepositStatus → Bool
is_settled confirmed = true
is_settled review = true
is_settled status = false

-- `creditedHashes`
unfoldable pub credited_hashes : List Deposit → List TxHash
credited_hashes [] = []
credited_hashes (d ∷ ds) = elim d.metadata.tx_hash [
  | none ↦ credited_hashes ds
  | some hash ↦ if is_settled d.status then hash ∷ credited_hashes ds else credited_hashes ds
]

-- `scan`. Rows are kept in the order they are made.
unfoldable pub scan : Explorer → Mode → ℕ → Store → Watch
unfolding newest_first
scan explorer mode now db =
    let all_pending = newest_first [] (keep (λ d. is_pending d.status) db.deposits) in
    inspect_all explorer mode now all_pending all_pending
      (record { store = db; hashes = credited_hashes db.deposits; sent = [] })

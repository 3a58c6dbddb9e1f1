-- ===== src/Wallet/Writes.antt =====
-- The statements that an operation of libs/wallet/src/play.service.ts runs one after the other, none
-- of them in a transaction: one that the database rejects throws, and what the earlier ones wrote
-- stays.
use crispy_enigma.Base.{◌≡◌, refl, List, [], ◌∷◌, Bool, false, if◌then◌else◌, inl, inr, Bool-cases}
use crispy_enigma.Wallet.Reply.{Reply, ok, thrown}
use crispy_enigma.Wallet.Store.{Store}

-- The statements that come after the one that changes the wallet, and the one that marks a bet with
-- a revealed tile.
pub data Statement : Type 0 where
  bet_insert bet_mark bet_close ledger_insert session_update rule_update : Statement

abbrev pub Write : Type 0
Write = Statement × (Store → Store)

-- The statements one after the other, and the reply once all are done.
unfoldable pub writes {ℓ} :
    {A : Type ℓ} → (Statement → Bool) → List Write → Reply A → Store → Reply A × Store
writes rejects [] reply db = (reply, db)
writes rejects ((statement, write) ∷ rest) reply db =
    let done = writes rejects rest reply (write db) in
    if rejects statement then (thrown, db) else done

abbrev pub written : List Write → Store → Store
written [] db = db
written ((statement, write) ∷ rest) db = written rest (write db)

-- What holds before the statements and after each of them.
abbrev pub Stages {κ} : (Store → Type κ) → List Write → Store → Type κ
Stages P [] db = P db
Stages P ((statement, write) ∷ rest) db = P db × Stages P rest (write db)

-- What holds at every stage holds wherever the statements end.
pub writes-store {ℓ κ} :
    {A : Type ℓ} (P : Store → Type κ) (rejects : Statement → Bool) (ws : List Write)
    (reply : Reply A) (db : Store)
    → Stages P ws db
    → P (writes rejects ws reply db).1
unfolding writes
writes-store P rejects [] reply db p = p
writes-store P rejects ((statement, write) ∷ rest) reply db p =
    elim (Bool-cases (rejects statement)) [
      | inl e ↦ rw e p.0
      | inr e ↦ rw e (writes-store P rejects rest reply (write db) p.1)
    ]

-- A value comes after all statements.
pub writes-ok {ℓ} :
    {A : Type ℓ} (rejects : Statement → Bool) (ws : List Write) (reply : Reply A) (db : Store)
    (a : A)
    → (writes rejects ws reply db).0 ≡ ok a
    → writes rejects ws reply db ≡ (reply, written ws db)
unfolding writes
writes-ok rejects [] reply db a h = refl
writes-ok rejects ((statement, write) ∷ rest) reply db a h = elim (Bool-cases (rejects statement)) [
  | inl e ↦ let impossible = rw e at h in cc
  | inr e ↦ rw e (writes-ok rejects rest reply (write db) a (rw e at h))
]

-- If nothing is rejected, all statements are done.
pub writes_all {ℓ} :
    {A : Type ℓ} (ws : List Write) (reply : Reply A) (db : Store)
    → writes (λ statement. false) ws reply db ≡ (reply, written ws db)
unfolding writes
writes_all [] reply db = refl
writes_all ((statement, write) ∷ rest) reply db = writes_all rest reply (write db)

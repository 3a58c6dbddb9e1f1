-- ===== src/Wallet/RuleWrites.antt =====
-- The last statement of `placeBet` of libs/wallet/src/play.service.ts, which runs only where a forced
-- round is left in the player's rule.
use crispy_enigma.Base.{
  List, [], ◌∷◌, ◌&&◌, if◌then◌else◌, Option, none, some, inl, inr, Bool-cases,
}
use crispy_enigma.Wallet.Store.{ControlRow, Store}
use crispy_enigma.Engine.Control.{is_positive}
use crispy_enigma.Wallet.Guards.{is_force, consume_forced_round}
use crispy_enigma.Wallet.Writes.{Statement, Write, Stages}

unfoldable pub rule_writes : Option ControlRow → List Write
rule_writes none = []
rule_writes (some row) =
    if is_force row.rule.mode && is_positive row.rule.force_rounds
    then (Statement.rule_update, consume_forced_round (some row)) ∷ []
    else []

pub rule_writes-Stages {κ} :
    (P : Store → Type κ) (row : Option ControlRow) (db : Store)
    → P db
    → P (consume_forced_round row db)
    → Stages P (rule_writes row) db
unfolding rule_writes
rule_writes-Stages P none db p q = p
rule_writes-Stages P (some row) db p q =
    elim (Bool-cases (is_force row.rule.mode && is_positive row.rule.force_rounds)) [
      | inl e ↦ rw e (p, q)
      | inr e ↦ rw e p
    ]

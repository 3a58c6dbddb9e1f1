-- ===== src/Wallet/Reply.antt =====
-- `RpcResult` of libs/contracts/src/commands.ts and `fail`: an operation ends in a value, in a
-- failure with its code, or in an exception.
use Prim.Native.String.{String}
use crispy_enigma.Base.{◌≡◌, ap}
use crispy_enigma.Number.{Number}

pub data Code : Type 0 where
  validation unavailable insufficient : Code

-- A message, as its text or as the number its template is filled with.
pub data Message : Type 0 where
  plain : String → Message
  minimum_bet : Number → Message
  maximum_bet : Number → Message

pub data Reply {ℓ} (A : Type ℓ) : Type ℓ where
  ok : A → Reply A
  fail : Message → Code → Reply A
  thrown : Reply A

value_or {ℓ} : {A : Type ℓ} → A → Reply A → A
value_or d (ok a) = a
value_or d (fail _ _) = d
value_or d thrown = d

pub ok-injective {ℓ} : {A : Type ℓ} (a b : A) → ok a ≡ ok b → a ≡ b
unfolding value_or
ok-injective a b h = ap (value_or a) h

module _ {ℓ₁ ℓ₂ ℓ₃} {A : Type ℓ₁} {B : Type ℓ₂} {S : Type ℓ₃} where
  -- Go on with a value; end early with a failure, the store as it is.
  abbrev pub and_then : Reply A → S → (A → Reply B × S) → Reply B × S
  and_then (ok a) s next = next a
  and_then (fail message code) s next = (fail message code, s)
  and_then thrown s next = (thrown, s)

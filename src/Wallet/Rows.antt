-- ===== src/Wallet/Rows.antt =====
-- Selects and updates of rows, and operations that end early.
use crispy_enigma.Base.{
  ◌≡◌, refl, ◌+◌, List, [], ◌∷◌, ◌++◌, Bool, true, false, if◌then◌else◌, Option, none, some, arith,
  length, keep,
}
use crispy_enigma.Wallet.Reply.{Reply, ok, fail, thrown, and_then}
use crispy_enigma.Wallet.Store.{first_where, update_where}

-- What holds of the store as it is, and after whatever comes next, holds after an early end too.
pub and_then-store {ℓ₁ ℓ₂ ℓ₃ κ} :
    {A : Type ℓ₁} {B : Type ℓ₂} {S : Type ℓ₃} (P : S → Type κ) (r : Reply A) (s : S)
    (next : A → Reply B × S)
    → P s
    → ((a : A) → r ≡ ok a → P (next a).1)
    → P (and_then r s next).1
and_then-store P (ok a) s next p q = q a refl
and_then-store P (fail m c) s next p q = p
and_then-store P thrown s next p q = p

pub if-store {ℓ₁ ℓ₂ κ} :
    {B : Type ℓ₁} {S : Type ℓ₂} (P : S → Type κ) (test : Bool) (a b : B × S)
    → (test ≡ true → P a.1)
    → (test ≡ false → P b.1)
    → P (if test then a else b).1
if-store P true a b p q = p refl
if-store P false a b p q = q refl

module _ {ℓ} {A : Type ℓ} where
  abbrev pub changed : (A → Bool) → (A → A) → Option A → Option A
  changed test change none = none
  changed test change (some x) = some (if test x then change x else x)

  -- A row is still found once rows are updated, if the test sees no difference.
  pub first_where-update :
      (test other : A → Bool) (change : A → A) (xs : List A)
      → ((x : A) → test (change x) ≡ test x)
      → first_where test (update_where other change xs) ≡ changed other change (first_where test xs)
  first_where-update test other change [] h = refl
  first_where-update test other change (x ∷ xs) h =
      ground (arith, h x, first_where-update test other change xs h)

  -- As many rows pass a test, if the update leaves its value.
  pub keep-update :
      (test other : A → Bool) (change : A → A) (xs : List A)
      → ((x : A) → test (change x) ≡ test x)
      → length (keep test (update_where other change xs)) ≡ length (keep test xs)
  keep-update test other change [] h = refl
  keep-update test other change (x ∷ xs) h = ground (arith, h x, keep-update test other change xs h)

  pub keep-append :
      (test : A → Bool) (xs ys : List A)
      → length (keep test (xs ++ ys)) ≡ length (keep test xs) + length (keep test ys)
  keep-append test [] ys = omega arith
  keep-append test (x ∷ xs) ys = ground (arith, keep-append test xs ys)

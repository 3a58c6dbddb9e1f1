-- ===== src/Engine/Rng/Shuffle.antt =====
-- What a shuffle keeps.
use mathlib.Core.List.{Perm, Permᴰ}
use mathlib.Core.Logic.{∥∥₁_elim}
use native.Mathlib.Nat.{ℕ_set}
use mathlib.Core.List.Perm
use crispy_enigma.Base.{
  ℕ, zero, suc, ◌≡◌, refl, List, [], ◌∷◌, Option, none, some, arith, length, count, IsDistinct,
  Within, SameItems, ◌∙◌, ap, ◌-◌, keep, Bool,
}
use crispy_enigma.Contracts.{SeedContext}
use crispy_enigma.Engine.Rng.{
  Hmac, get_slot, put_slot, exchange, filled, defined, shuffle_from, seeded_shuffle,
}

module _ {ℓ} {A : Type ℓ} where
  swap_slots-perm :
      (a b : Option A) (slots : List (Option A))
      → Perm (defined (a ∷ b ∷ slots)) (defined (b ∷ a ∷ slots))
  swap_slots-perm none none slots = Perm.refl (defined slots)
  swap_slots-perm none (some y) slots = Perm.refl (y ∷ defined slots)
  swap_slots-perm (some x) none slots = Perm.refl (x ∷ defined slots)
  swap_slots-perm (some x) (some y) slots = Perm.swap y x (defined slots)

  slot-perm :
      (a : Option A) (xs ys : List (Option A))
      → Perm (defined xs) (defined ys)
      → Perm (defined (a ∷ xs)) (defined (a ∷ ys))
  slot-perm none xs ys p = p
  slot-perm (some x) xs ys p = Perm.cons x p

  defined-put_slot : (i : ℕ) (a : Option A) → defined (put_slot [] i a) ≡ defined (a ∷ [])
  unfolding put_slot
  defined-put_slot zero a = refl
  defined-put_slot (suc i) a = defined-put_slot i a

  -- The head changes places with a slot of the tail.
  head-perm :
      (a : Option A) (slots : List (Option A)) (j : ℕ)
      → Perm (defined (get_slot slots j ∷ put_slot slots j a)) (defined (a ∷ slots))
  unfolding put_slot
  head-perm a [] j = rw (defined-put_slot j a) (Perm.refl (defined (a ∷ [])))
  head-perm a (x ∷ slots) zero = swap_slots-perm x a slots
  head-perm a (x ∷ slots) (suc j) =
      Perm.trans (swap_slots-perm (get_slot slots j) x (put_slot slots j a)) (
        Perm.trans
          (slot-perm x (get_slot slots j ∷ put_slot slots j a) (a ∷ slots) (head-perm a slots j))
          (swap_slots-perm x a slots))

  -- An exchange rearranges what is defined, even where it makes the array longer.
  exchange-perm :
      (slots : List (Option A)) (i j : ℕ) → Perm (defined (exchange slots i j)) (defined slots)
  unfolding exchange put_slot
  exchange-perm [] zero zero = Perm.refl []
  exchange-perm [] zero (suc j) = rw (defined-put_slot j none) (Perm.refl [])
  exchange-perm [] (suc i) zero = rw (defined-put_slot i none) (Perm.refl [])
  exchange-perm [] (suc i) (suc j) = exchange-perm [] i j
  exchange-perm (x ∷ slots) zero zero = Perm.refl (defined (x ∷ slots))
  exchange-perm (x ∷ slots) zero (suc j) = head-perm x slots j
  exchange-perm (x ∷ slots) (suc i) zero = head-perm x slots i
  exchange-perm (x ∷ slots) (suc i) (suc j) =
      slot-perm x (exchange slots i j) slots (exchange-perm slots i j)

  pub defined-filled : (xs : List A) → defined (filled xs) ≡ xs
  defined-filled [] = refl
  defined-filled (x ∷ xs) = ap (λ ys. x ∷ ys) (defined-filled xs)

Permᴰ-count : {xs ys : List ℕ} (a : ℕ) → Permᴰ xs ys → count a xs ≡ count a ys
Permᴰ-count a Permᴰ.nil = refl
Permᴰ-count a (Permᴰ.cons e p) = rw e (omega (arith, Permᴰ-count a p))
Permᴰ-count a (Permᴰ.swap e f) = rw (e, f) (omega arith)
Permᴰ-count a (Permᴰ.trans p q) = Permᴰ-count a p ∙ Permᴰ-count a q

-- A rearrangement of numbers has the same numbers, as often.
Perm-SameItems : {xs ys : List ℕ} → Perm xs ys → SameItems xs ys
Perm-SameItems p a = ∥∥₁_elim p (ℕ_set _ _) (Permᴰ-count a)

Permᴰ-length {ℓ} : {A : Type ℓ} {xs ys : List A} → Permᴰ xs ys → length xs ≡ length ys
Permᴰ-length Permᴰ.nil = refl
Permᴰ-length (Permᴰ.cons e p) = ap suc (Permᴰ-length p)
Permᴰ-length (Permᴰ.swap e f) = refl
Permᴰ-length (Permᴰ.trans p q) = Permᴰ-length p ∙ Permᴰ-length q

module _ (hmac : Hmac) (s : SeedContext) where
  shuffle_from-perm {ℓ} :
      {A : Type ℓ} (offset i : ℕ) (slots : List (Option A))
      → Perm (defined (shuffle_from hmac s offset i slots)) (defined slots)
  unfolding shuffle_from
  shuffle_from-perm offset zero slots = Perm.refl (defined slots)
  shuffle_from-perm offset (suc i) slots =
      Perm.trans (shuffle_from-perm offset i _) (exchange-perm slots (suc i) _)

  pub seeded_shuffle-perm {ℓ} :
      {A : Type ℓ} (items : List A) (offset : ℕ) → Perm (seeded_shuffle hmac items s offset) items
  unfolding seeded_shuffle
  seeded_shuffle-perm items offset =
      rw (defined-filled items) at (shuffle_from-perm offset (length items - 1) (filled items))

  pub seeded_shuffle-SameItems :
      (items : List ℕ) (offset : ℕ) → SameItems (seeded_shuffle hmac items s offset) items
  seeded_shuffle-SameItems items offset = Perm-SameItems (seeded_shuffle-perm items offset)

  pub length-seeded_shuffle {ℓ} :
      {A : Type ℓ} (items : List A) (offset : ℕ)
      → length (seeded_shuffle hmac items s offset) ≡ length items
  length-seeded_shuffle items offset =
      ∥∥₁_elim (seeded_shuffle-perm items offset) (ℕ_set _ _) Permᴰ-length

Permᴰ-length-keep {ℓ} :
    {A : Type ℓ} {xs ys : List A} (test : A → Bool)
    → Permᴰ xs ys
    → length (keep test xs) ≡ length (keep test ys)
Permᴰ-length-keep test Permᴰ.nil = refl
Permᴰ-length-keep test (Permᴰ.cons e p) = rw e (ground (arith, Permᴰ-length-keep test p))
Permᴰ-length-keep test (Permᴰ.swap e f) = rw (e, f) (ground arith)
Permᴰ-length-keep test (Permᴰ.trans p q) = Permᴰ-length-keep test p ∙ Permᴰ-length-keep test q

module _ (hmac : Hmac) (s : SeedContext) where
  -- As many items of a shuffle pass a test as of the list.
  pub length-keep-seeded_shuffle {ℓ} :
      {A : Type ℓ} (test : A → Bool) (items : List A) (offset : ℕ)
      → length (keep test (seeded_shuffle hmac items s offset)) ≡ length (keep test items)
  length-keep-seeded_shuffle test items offset =
      ∥∥₁_elim (seeded_shuffle-perm hmac s items offset) (ℕ_set _ _) (Permᴰ-length-keep test)

  pub seeded_shuffle-IsDistinct :
      (items : List ℕ) (offset : ℕ)
      → IsDistinct items
      → IsDistinct (seeded_shuffle hmac items s offset)
  seeded_shuffle-IsDistinct items offset h a =
      omega (arith, h a, seeded_shuffle-SameItems hmac s items offset a)

  pub seeded_shuffle-Within :
      (low high : ℕ) (items : List ℕ) (offset : ℕ)
      → Within low high items
      → Within low high (seeded_shuffle hmac items s offset)
  seeded_shuffle-Within low high items offset h a k =
      h a (omega (arith, k, seeded_shuffle-SameItems hmac s items offset a))

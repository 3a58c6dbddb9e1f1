-- ===== src/Engine/Rng/Slots.antt =====
-- A shuffle leaves no slot of its array without an item.
use mathlib.Core.List.{Perm}
use crispy_enigma.Base.{
  ℕ, zero, suc, ◌≡◌, refl, sym, ◌∙◌, ap, ◌≤◌, ◌<◌, ◌+◌, ◌-◌, ◌^◌, List, [], ◌∷◌, some, arith,
  length, set, length-set,
}
use crispy_enigma.Contracts.{SeedContext}
use crispy_enigma.Engine.Rng.{
  Hmac, get_slot, put_slot, exchange, filled, defined, draw_below, shuffle_from, seeded_shuffle,
}
use crispy_enigma.Engine.Rng.Bounds.{Digests, draw_below-lt}
use crispy_enigma.Engine.Rng.Shuffle.{defined-filled, seeded_shuffle-perm}

module _ {ℓ} {A : Type ℓ} where
  put_slot-filled :
      (xs : List A) (i : ℕ) (a : A)
      → i < length xs
      → put_slot (filled xs) i (some a) ≡ filled (set xs i a)
  unfolding put_slot
  put_slot-filled [] i a h = absurd (omega (arith, h))
  put_slot-filled (x ∷ xs) zero a h = refl
  put_slot-filled (x ∷ xs) (suc i) a h =
      ap (λ slots. some x ∷ slots) (put_slot-filled xs i a (omega (arith, h)))

  get_slot-filled :
      (xs : List A) (i : ℕ) → i < length xs → (a : A) × (get_slot (filled xs) i ≡ some a)
  get_slot-filled [] i h = absurd (omega (arith, h))
  get_slot-filled (x ∷ xs) zero h = (x, refl)
  get_slot-filled (x ∷ xs) (suc i) h = get_slot-filled xs i (omega (arith, h))

  -- Two items within the array change places.
  exchange-filled :
      (xs : List A) (i j : ℕ)
      → i < length xs
      → j < length xs
      → (ys : List A) × (exchange (filled xs) i j ≡ filled ys) × (length ys ≡ length xs)
  unfolding exchange
  exchange-filled xs i j p q =
      let (a, ea) = get_slot-filled xs i p in
      let (b, eb) = get_slot-filled xs j q in
      let inside : j < length (set xs i b) = rw (length-set xs i b) q in
      (
        set (set xs i b) j a,
        rw (ea, eb)
            (ap (λ slots. put_slot slots j (some a)) (put_slot-filled xs i b p)
              ∙ put_slot-filled (set xs i b) j a inside),
        length-set (set xs i b) j a ∙ length-set xs i b,
      )

module _ (hmac : Hmac) (s : SeedContext) (hex : Digests hmac) where
  shuffle_from-filled {ℓ} :
      {A : Type ℓ} (offset i : ℕ) (xs : List A)
      → i ≤ length xs - 1
      → length xs < 2 ^ 52
      → (ys : List A) × (shuffle_from hmac s offset i (filled xs) ≡ filled ys)
  unfolding shuffle_from
  shuffle_from-filled offset zero xs h small = (xs, refl)
  shuffle_from-filled offset (suc i) xs h small =
      let drawn =
        draw_below-lt hmac s (offset + suc i) (suc i + 1) hex (omega arith) (omega arith) in
      let (ys, same, long) =
        exchange-filled xs (suc i) (draw_below hmac s (offset + suc i) (suc i + 1)) (omega arith)
          (omega (arith, drawn)) in
      let (zs, rest) =
        shuffle_from-filled offset i ys (omega (arith, long, h)) (omega (arith, long)) in
      (zs, ap (shuffle_from hmac s offset i) same ∙ rest)

  -- For digests of hex digits and fewer than 2 ^ 52 items, every slot of the shuffled array holds an
  -- item, and these are a rearrangement of the items given.
  pub seeded_shuffle-filled {ℓ} :
      {A : Type ℓ} (items : List A) (offset : ℕ)
      → length items < 2 ^ 52
      → (shuffle_from hmac s offset (length items - 1) (filled items)
          ≡ filled (seeded_shuffle hmac items s offset))
        × Perm (seeded_shuffle hmac items s offset) items
  unfolding seeded_shuffle
  seeded_shuffle-filled items offset small =
      let (ys, same) = shuffle_from-filled offset (length items - 1) items (omega arith) small in
      (
        same ∙ ap filled (sym (ap defined same ∙ defined-filled ys)),
        seeded_shuffle-perm hmac s items offset,
      )

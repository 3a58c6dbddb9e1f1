-- ===== src/Engine/CoinFlip/Forced.antt =====
-- A forced coin flip.
use crispy_enigma.Base.{◌≡◌, refl, Bool, true, false, some}
use crispy_enigma.Number.{Number}
use crispy_enigma.Contracts.{Side, heads, tails, SeedContext}
use crispy_enigma.Engine.Rng.{Hmac}
use crispy_enigma.Engine.CoinFlip.{resolve_coin_flip, same_side, opposite}

same_side_self : (s : Side) → same_side s s ≡ true
same_side_self heads = refl
same_side_self tails = refl

same_side-opposite : (s : Side) → same_side (opposite s) s ≡ false
same_side-opposite heads = refl
same_side-opposite tails = refl

module _ (hmac : Hmac) where
  -- A forced flip is won exactly as it is forced, at every draw.
  pub resolve_coin_flip_forced :
      (side : Side) (seeds : SeedContext) (house_edge : Number) (f : Bool)
      → (resolve_coin_flip hmac side seeds house_edge (some f)).won ≡ f
  unfolding resolve_coin_flip
  resolve_coin_flip_forced side seeds house_edge true = same_side_self side
  resolve_coin_flip_forced side seeds house_edge false = same_side-opposite side

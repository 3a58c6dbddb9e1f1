-- ===== src/Engine/Round.antt =====
-- `resolveRound` of libs/engine/src/resolver.ts: one entry point for the instant games. A selection
-- carries its game, so the casts of the source are the cases of the match, and the selections of
-- mines and towers, which its type excludes, give no result.
use crispy_enigma.Base.{Option, none, some}
use crispy_enigma.Number.{Number}
use crispy_enigma.Contracts.{Selection, ForcedResult, RoundResult, SeedContext}
use crispy_enigma.Engine.Rng.{Hmac}
use crispy_enigma.Engine.Dice.{resolve_dice}
use crispy_enigma.Engine.CoinFlip.{resolve_coin_flip}
use crispy_enigma.Engine.Limbo.{resolve_limbo}
use crispy_enigma.Engine.Wheel.{resolve_wheel}
use crispy_enigma.Engine.Plinko.{resolve_plinko}
use crispy_enigma.Engine.Keno.{resolve_keno}

pub record GameConfig : Type 0 where
  pub house_edge : Number
  pub max_multiplier : Number

module _ (hmac : Hmac) where
  unfoldable pub resolve_round :
      Selection → SeedContext → GameConfig → ForcedResult → Option RoundResult
  resolve_round (Selection.dice sel) seeds config forced =
      some (resolve_dice hmac sel seeds config.house_edge forced)
  resolve_round (Selection.coin_flip side) seeds config forced =
      some (resolve_coin_flip hmac side seeds config.house_edge forced)
  resolve_round (Selection.limbo target) seeds config forced =
      some (resolve_limbo hmac target seeds config.house_edge forced config.max_multiplier)
  resolve_round (Selection.wheel risk) seeds config forced =
      some (resolve_wheel hmac risk seeds forced)
  resolve_round (Selection.plinko sel) seeds config forced =
      some (resolve_plinko hmac sel seeds forced config.max_multiplier)
  resolve_round (Selection.keno picks) seeds config forced =
      some (resolve_keno hmac picks seeds forced config.max_multiplier)
  resolve_round (Selection.mines _) seeds config forced = none
  resolve_round (Selection.towers _) seeds config forced = none

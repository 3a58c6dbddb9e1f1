-- ===== src/Worker/LiveWins.antt =====
-- What a settled bet puts on the lobby's ticker.
use crispy_enigma.Base.{
  ◌≡◌, refl, ℕ, suc, ◌+◌, Bool, true, false, Bool-cases, inl, inr, List, [], ◌∷◌, if◌then◌else◌,
}
use crispy_enigma.Number.{is_nan, whole, lt}
use crispy_enigma.Number.Order.{le-not-lt}
use crispy_enigma.Wallet.Instant.{SettledBet}
use crispy_enigma.Messages.{
  BetSettledEvent, Channel, ChannelEvent, Effect, Services, publish, perform,
}
use crispy_enigma.Controller.Fanout.{is_paid_win, bet_event, fanout_bet}
use crispy_enigma.Worker.{process_realtime, on_bet_settled, consume, deliver}

-- Services that take everything.
abbrev pub all_up : Services
all_up = record {
  takes_message = λ channel event content. true;
  takes_event = λ key event. true;
  takes_job = λ job. true;
}

unfoldable pub live_wins : List Effect → ℕ
live_wins [] = 0
live_wins (publish Channel.lobby ChannelEvent.live_win content ∷ effects) = suc (live_wins effects)
live_wins (effect ∷ effects) = live_wins effects

is_nan_zero : is_nan (whole 0) ≡ false
unfolding whole
is_nan_zero = refl

-- With all services up, a settled bet that is won with a payout above zero puts at least two live
-- wins on the lobby's channel, one from the engine and one from the worker's queue, and a third if
-- the worker's server dispatches the event on the bus. Any other bet whose payout is not NaN puts
-- none there.
pub fanout_bet-live_wins :
    (dispatches : BetSettledEvent → Bool) (user : ℕ) (bet : SettledBet)
    → is_nan bet.payout ≡ false
    → let sent = (perform all_up (fanout_bet user bet)).1 in
      live_wins sent + live_wins (deliver dispatches all_up sent)
      ≡ (if is_paid_win bet then (if dispatches (bet_event user bet) then 3 else 2) else 0)
unfolding fanout_bet perform deliver consume live_wins process_realtime on_bet_settled
fanout_bet-live_wins dispatches user bet h =
    let event = bet_event user bet in
    let cases = λ (won : Bool). Bool-cases (dispatches (record event { won = won })) in
    elim (Bool-cases bet.won) [
      | inl w ↦ elim (Bool-cases (lt (whole 0) bet.payout)) [
        | inl p ↦
            rw (w, p)
              (rw (le-not-lt bet.payout (whole 0) h is_nan_zero, p)
                (elim (cases true) [ inl d ↦ rw d refl | inr d ↦ rw d refl ]))
        | inr p ↦
            rw (w, p)
              (rw (le-not-lt bet.payout (whole 0) h is_nan_zero, p)
                (elim (cases true) [ inl d ↦ rw d refl | inr d ↦ rw d refl ]))
      ]
      | inr w ↦ rw w (elim (cases false) [ inl d ↦ rw d refl | inr d ↦ rw d refl ])
    ]

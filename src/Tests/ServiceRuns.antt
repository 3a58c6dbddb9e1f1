-- ===== src/Tests/ServiceRuns.antt =====
-- The theorems on controller, worker and gateway, at the store of Tests/WalletRuns.
use crispy_enigma.Base.{
  ◌≡◌, refl, ◌⊎◌, ℕ, ◌+◌, List, [], ◌∷◌, Bool, true, false, none, some, if◌then◌else◌, take,
}
use crispy_enigma.Number.{whole, is_nan}
use crispy_enigma.Contracts.{GameSlug, Side, Outcome}
use crispy_enigma.Wallet.Instant.{SettledBet}
use crispy_enigma.Wallet.Isolation.{Keeps}
use crispy_enigma.Messages.{BetSettledEvent, Job, Services, perform}
use crispy_enigma.Controller.Fanout.{bet_item, bet_event, is_paid_win, fanout_bet}
use crispy_enigma.Controller.Requests.{mines_cashout, handle}
use crispy_enigma.Controller.Replies.{play, Answers, is_bet, handle-Answers}
use crispy_enigma.Worker.{cached, deliver}
use crispy_enigma.Worker.History.{cache_after, items_kept, cache_after_lem}
use crispy_enigma.Worker.LiveWins.{all_up, live_wins, fanout_bet-live_wins}
use crispy_enigma.Gateway.Cookies.{read_cookie}
use crispy_enigma.Gateway.CookieJar.{
  Cookie, AllCookies, cookie_header, first_value, read_cookie-header,
}
use crispy_enigma.Gateway.Guards.{Headers, Verify, Ably, cookie_prod}
use crispy_enigma.Gateway.Routes.{Rule, up, all_pass, body_rules, serve}
use crispy_enigma.Gateway.OwnWallet.{IsPlayer, serve-IsPlayer}
use crispy_enigma.Tests.EngineRuns.{digest}
use crispy_enigma.Tests.WalletRuns.{db, powers, conversions, draws}

-- Redis refuses every job.
abbrev no_queue : Services
no_queue = record all_up { takes_job = λ job. false }

handle-Answers_example :
    Answers
      (is_bet (mines_cashout 2 5))
      (play digest powers conversions draws 9 1 (mines_cashout 2 5) db)
      (handle no_queue digest powers conversions draws 9 1 (mines_cashout 2 5) db)
handle-Answers_example =
    handle-Answers no_queue digest powers conversions draws 9 1 (mines_cashout 2 5) db

-- A win of 10.00 on a stake of 5.00.
abbrev won_bet : SettledBet
won_bet = record {
  reference = 8;
  session = 4;
  game_slug = GameSlug.coin_flip;
  won = true;
  stake = whole 5;
  multiplier = whole 2;
  payout = whole 10;
  outcome = Outcome.coin_flip Side.heads;
  server_seed_hash = "hash";
  client_seed = "client";
  nonce = 3;
  balance = whole 105;
  settled_at = 50;
}

payout_is_number : is_nan won_bet.payout ≡ false
unfolding whole
payout_is_number = refl

-- A server that hands on no payload without a pattern.
abbrev no_dispatch : BetSettledEvent → Bool
no_dispatch event = false

fanout_bet-live_wins_example :
    let sent = (perform all_up (fanout_bet 1 won_bet)).1 in
    live_wins sent + live_wins (deliver no_dispatch all_up sent)
    ≡ (if is_paid_win won_bet then (if no_dispatch (bet_event 1 won_bet) then 3 else 2) else 0)
fanout_bet-live_wins_example = fanout_bet-live_wins no_dispatch 1 won_bet payout_is_number

-- An item that comes fourteen hours after the one before it, read an hour later.
abbrev two_jobs : List (ℕ × Job)
two_jobs =
    (50_400_000, Job.history 4 (bet_item won_bet)) ∷ (0, Job.history 4 (bet_item won_bet)) ∷ []

cache_after_lem_example :
    cached 54_000_000 4 (cache_after two_jobs) ≡ take 50 (items_kept 54_000_000 4 two_jobs)
cache_after_lem_example = cache_after_lem 4 54_000_000 two_jobs

-- `a=x=y` and `smink_session=t`
abbrev jar_first : Cookie
jar_first = record { name = 97 ∷ []; value = 120 ∷ 61 ∷ 121 ∷ [] }

abbrev jar_second : Cookie
jar_second = record { name = cookie_prod; value = 116 ∷ [] }

jar-AllCookies : AllCookies (jar_first ∷ jar_second ∷ [])
jar-AllCookies = (
  record {
    name_spaces = refl;
    name_ends = refl;
    name_signs = refl;
    value_spaces = refl;
    value_ends = refl;
  },
  (
    record {
      name_spaces = refl;
      name_ends = refl;
      name_signs = refl;
      value_spaces = refl;
      value_ends = refl;
    },
    tt,
  ),
)

read_cookie-header_example :
    read_cookie (some (cookie_header (jar_first ∷ jar_second ∷ []))) cookie_prod
    ≡ first_value cookie_prod (jar_first ∷ jar_second ∷ [])
read_cookie-header_example =
    read_cookie-header cookie_prod (jar_first ∷ jar_second ∷ []) jar-AllCookies

-- Every token verifies as player 1, who is present at the second read.
abbrev verify : Verify
verify token secret = some (record { user_id = some 1; email = some (64 ∷ []) })

abbrev ably : Ably
ably = record { has_key = true; first_read = λ user. some 0; second_read = λ user. some 1 }

abbrev headers : Headers
headers = record { authorization = none; cookie = some (cookie_header (jar_second ∷ [])) }

abbrev passes : Rule → Bool
passes rule = true

serve-IsPlayer_example :
    let engine = handle no_queue digest powers conversions draws 9 in
    Keeps 1 db
      (serve engine verify (some (107 ∷ [])) ably passes up headers (mines_cashout 2 5) db).store
    ⊎ (IsPlayer verify (some (107 ∷ [])) ably headers (mines_cashout 2 5) 1
        × (all_pass passes (body_rules (mines_cashout 2 5)) ≡ true))
serve-IsPlayer_example =
    serve-IsPlayer no_queue digest powers conversions draws 9 verify (some (107 ∷ [])) ably passes
      up headers (mines_cashout 2 5) db 1

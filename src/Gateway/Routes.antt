-- ===== src/Gateway/Routes.antt =====
-- apps/gateway/src/gateway.controller.ts and engine.client.ts: guards, then the rules of the body,
-- then the command to the engine in the name of the user of the token.
use crispy_enigma.Base.{
  ℕ, List, [], ◌∷◌, Bool, true, false, ◌&&◌, if◌then◌else◌, Option, none, some,
}
use crispy_enigma.Number.{Number, whole, decimal}
use crispy_enigma.Engine.Validate.{Json}
use crispy_enigma.Wallet.Reply.{Reply, ok, fail, thrown, plain, unavailable}
use crispy_enigma.Wallet.Store.{Store}
use crispy_enigma.Messages.{Channel, Effect}
use crispy_enigma.Controller.Fanout.{Handled}
use crispy_enigma.Controller.Requests.{
  Request, session_start, bet_place, mines_start, mines_reveal, mines_cashout, towers_start,
  towers_reveal, towers_cashout, Answer,
}
use crispy_enigma.Gateway.Cookies.{Text}
use crispy_enigma.Gateway.Guards.{
  AuthUser, Headers, Refusal, Guarded, allowed, refused, Verify, jwt_guard, Ably, presence_guard,
}

-- A decorator of class-validator on a property of a body, which is a parameter: keys, which are
-- texts here by their type, have none.
pub data Rule : Type 0 where
  is_number is_int : Number → Rule
  at_least : Number → Number → Rule
  is_object : Json → Rule
  is_level : Json → Rule

-- The rules of the body that a route takes.
unfoldable pub body_rules : Request → List Rule
body_rules (bet_place session slug stake selection) =
    is_number stake ∷ at_least (decimal 1 100) stake ∷ is_object selection ∷ []
body_rules (mines_start session stake mine_count) =
    is_number stake
    ∷ at_least (decimal 1 100) stake
    ∷ is_int mine_count
    ∷ at_least (whole 1) mine_count
    ∷ []
body_rules (mines_reveal session reference tile) = is_int tile ∷ at_least (whole 0) tile ∷ []
body_rules (towers_start session stake difficulty) =
    is_number stake ∷ at_least (decimal 1 100) stake ∷ is_level difficulty ∷ []
body_rules (towers_reveal session reference tile) = is_int tile ∷ at_least (whole 0) tile ∷ []
body_rules request = []

abbrev pub all_pass : (Rule → Bool) → List Rule → Bool
all_pass passes [] = true
all_pass passes (rule ∷ rules) = let rest = all_pass passes rules in passes rule && rest

-- The routes with `PresenceGuard`
unfoldable pub needs_presence : Request → Bool
needs_presence (session_start slug) = true
needs_presence (bet_place session slug stake selection) = true
needs_presence (mines_start session stake mine_count) = true
needs_presence (mines_reveal session reference tile) = true
needs_presence (mines_cashout session reference) = true
needs_presence (towers_start session stake difficulty) = true
needs_presence (towers_reveal session reference tile) = true
needs_presence (towers_cashout session reference) = true
needs_presence request = false

-- What becomes of a message to the engine: the engine runs it and its reply comes back, or the call
-- fails, or times out, before or after the engine runs it.
pub data Link : Type 0 where
  up lost_before lost_after : Link

abbrev pub paused : Reply Answer
paused = fail (plain "Play is paused right now. Try again in a moment.") unavailable

-- An exception in the engine fails the call.
abbrev pub or_paused : Reply Answer → Reply Answer
or_paused thrown = paused
or_paused reply = reply

-- `EngineClient.send`; `engine` is the engine on the message.
unfoldable pub send : Link → (Store → Handled Answer) → Store → Handled Answer
send up engine db =
    let h = engine db in record { reply = or_paused h.reply; store = h.store; sent = h.sent }
send lost_before engine db = record { reply = paused; store = db; sent = [] }
send lost_after engine db =
    let h = engine db in record { reply = paused; store = h.store; sent = h.sent }

abbrev pub is_ok_reply : Reply Answer → Bool
is_ok_reply (ok answer) = true
is_ok_reply reply = false

-- `EngineClient.ping`, within `health`
unfoldable pub engine_is_up : Link → Reply Answer → Bool
engine_is_up up reply = is_ok_reply reply
engine_is_up link reply = false

-- The answer of the gateway to a command.
pub data Response : Type 0 where
  turned_away : Refusal → Response
  bad_request : Response
  answered : Reply Answer → Response

-- The guards of the route of a command.
unfoldable pub guard : Verify → Option Text → Ably → Headers → Request → Guarded AuthUser
guard verify secret ably headers request = elim (jwt_guard verify secret headers) [
  | refused refusal ↦ refused refusal
  | allowed user ↦ if needs_presence request then presence_guard ably (some user) else allowed user
]

-- What a request comes to.
pub record Served : Type 0 where
  pub response : Response
  pub store : Store
  pub sent : List Effect

abbrev pub pass_on : Handled Answer → Served
pass_on h = record { response = answered h.reply; store = h.store; sent = h.sent }

-- The routes of the commands. `engine` is the engine on an envelope: a user's key and a payload.
unfoldable pub serve :
    (ℕ → Request → Store → Handled Answer)
    → Verify
    → Option Text
    → Ably
    → (Rule → Bool)
    → Link
    → Headers
    → Request
    → Store
    → Served
serve engine verify secret ably passes link headers request db =
    elim (guard verify secret ably headers request) [
      | refused refusal ↦ record { response = turned_away refusal; store = db; sent = [] }
      | allowed user ↦
          if all_pass passes (body_rules request)
          then pass_on (send link (engine user.user_id request) db)
          else record { response = bad_request; store = db; sent = [] }
    ]

-- The channels of a capability; a session that is not named is `*`, any session.
pub data ChannelPattern : Type 0 where
  just : Channel → ChannelPattern
  any_session : ChannelPattern

abbrev pub session_pattern : Option ℕ → ChannelPattern
session_pattern none = any_session
session_pattern (some session) = just (Channel.session session)

-- The capability that `createTokenRequest` asks for; without a key it throws.
unfoldable pub create_token_request : Bool → ℕ → Option ℕ → Option (List ChannelPattern)
create_token_request has_key user session =
    if has_key
    then some (just (Channel.user user) ∷ just Channel.lobby ∷ session_pattern session ∷ [])
    else none

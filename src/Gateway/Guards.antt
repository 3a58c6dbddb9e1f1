-- ===== src/Gateway/Guards.antt =====
-- The guards: `JwtGuard` and `PresenceGuard` of apps/gateway/src/auth, over what a request holds and
-- what jose and Ably answer. A user's key in a token is never the empty text.
use Prim.Native.String.{String}
use crispy_enigma.Base.{ℕ, [], ◌∷◌, Bool, false, not, if◌then◌else◌, Option, none, some, ◌==◌, ltb}
use crispy_enigma.Gateway.Cookies.{Text, read_cookie}

-- `AuthUser`, with its key only
pub record AuthUser : Type 0 where
  pub user_id : ℕ

-- The payload of a verified token; a key or an address that is no text is `none`.
pub record Claims : Type 0 where
  pub user_id : Option ℕ
  pub email : Option Text

pub record Headers : Type 0 where
  pub authorization : Option Text
  pub cookie : Option Text

pub data Refusal : Type 0 where
  unauthorized : String → Refusal
  service_unavailable : String → Refusal
  forbidden : Refusal

pub data Guarded {ℓ} (A : Type ℓ) : Type ℓ where
  allowed : A → Guarded A
  refused : Refusal → Guarded A

-- `jwtVerify` of jose with the algorithm HS256, at a time: `none` is a rejection.
abbrev pub Verify : Type 0
Verify = Text → Text → Option Claims

-- "Bearer "
abbrev pub bearer_prefix : Text
bearer_prefix = 66 ∷ 101 ∷ 97 ∷ 114 ∷ 101 ∷ 114 ∷ 32 ∷ []

-- `smink_session`
abbrev pub cookie_prod : Text
cookie_prod = 115 ∷ 109 ∷ 105 ∷ 110 ∷ 107 ∷ 95 ∷ 115 ∷ 101 ∷ 115 ∷ 115 ∷ 105 ∷ 111 ∷ 110 ∷ []

-- `smink_localhost_session`
abbrev pub cookie_local : Text
cookie_local =
    115 ∷ 109 ∷ 105 ∷ 110 ∷ 107 ∷ 95 ∷ 108 ∷ 111 ∷ 99 ∷ 97 ∷ 108 ∷ 104 ∷ 111 ∷ 115 ∷ 116 ∷ 95 ∷ 115
    ∷ 101 ∷ 115 ∷ 115 ∷ 105 ∷ 111 ∷ 110 ∷ []

-- The rest of a text that starts with a prefix.
unfoldable pub after_prefix : Text → Text → Option Text
after_prefix [] text = some text
after_prefix (p ∷ ps) [] = none
after_prefix (p ∷ ps) (c ∷ cs) = let rest = after_prefix ps cs in if p == c then rest else none

abbrev pub bearer_token : Option Text → Option Text
bearer_token none = none
bearer_token (some bearer) = after_prefix bearer_prefix bearer

-- `a ?? b`
abbrev pub or_other : Option Text → Option Text → Option Text
or_other none b = b
or_other (some a) b = some a

unfoldable pub token_of : Headers → Option Text
token_of headers =
    or_other (bearer_token headers.authorization)
      (or_other (read_cookie headers.cookie cookie_local) (read_cookie headers.cookie cookie_prod))

-- A missing text and the empty one are both falsy.
abbrev pub non_empty : Option Text → Option Text
non_empty none = none
non_empty (some []) = none
non_empty (some (c ∷ cs)) = some (c ∷ cs)

-- Every rejection, that of a payload without its texts too, is caught and told as an expiry.
abbrev pub user_of_claims : Option Claims → Guarded AuthUser
user_of_claims none = refused (unauthorized "Session expired. Sign in again.")
user_of_claims (some claims) = elim claims.user_id [
  | none ↦ refused (unauthorized "Session expired. Sign in again.")
  | some user_id ↦ elim claims.email [
    | none ↦ refused (unauthorized "Session expired. Sign in again.")
    | some email ↦ allowed (record { user_id = user_id })
  ]
]

-- `JwtGuard.canActivate`; `secret` is `JWT_SECRET`.
unfoldable pub jwt_guard : Verify → Option Text → Headers → Guarded AuthUser
jwt_guard verify secret headers = elim (non_empty (token_of headers)) [
  | none ↦ refused (unauthorized "Sign in to play")
  | some token ↦ elim (non_empty secret) [
    | none ↦ refused (unauthorized "Server is missing JWT_SECRET")
    | some key ↦ user_of_claims (verify token key)
  ]
]

-- What Ably answers when the presence of a user is read: the number of items, or an error.
pub record Ably : Type 0 where
  pub has_key : Bool
  pub first_read : ℕ → Option ℕ
  pub second_read : ℕ → Option ℕ

abbrev pub has_items : Option ℕ → Bool
has_items none = false
has_items (some items) = ltb 0 items

-- `RealtimeService.isUserPresent`
abbrev pub is_user_present : Bool → Option ℕ → Bool
is_user_present enabled items = if not enabled then false else has_items items

-- `PresenceGuard.canActivate`, which reads twice; it runs after `JwtGuard`, if that has set a user.
unfoldable pub presence_guard : Ably → Option AuthUser → Guarded AuthUser
presence_guard ably none =
    if not ably.has_key
    then refused (
        service_unavailable
          "Play is paused until realtime is connected. Check the status in the header.")
    else refused forbidden
presence_guard ably (some user) =
    if not ably.has_key
    then refused (
        service_unavailable
          "Play is paused until realtime is connected. Check the status in the header.")
    else if is_user_present ably.has_key (ably.first_read user.user_id)
    then allowed user
    else if is_user_present ably.has_key (ably.second_read user.user_id)
    then allowed user
    else refused
        (service_unavailable "You are not connected. Wait for the live indicator before playing.")

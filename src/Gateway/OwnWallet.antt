-- ===== src/Gateway/OwnWallet.antt =====
-- A request through the gateway reaches the wallet of the token's user only.
use mathlib.Core.Path.{subst}
use crispy_enigma.Base.{
  ◌≡◌, refl, sym, ap, ◌⊎◌, inl, inr, ◌≢◌, ℕ, Bool, true, ◌&&◌, ◌||◌, Bool-cases, Option, some, ◌==◌,
  arith,
}
use crispy_enigma.Engine.Rng.{Hmac}
use crispy_enigma.Engine.Towers.{Power}
use crispy_enigma.Engine.Validate.{Conversions}
use crispy_enigma.Wallet.Store.{Store}
use crispy_enigma.Wallet.Bets.{Draws}
use crispy_enigma.Wallet.Isolation.{Keeps}
use crispy_enigma.Messages.{Services}
use crispy_enigma.Controller.Fanout.{Handled}
use crispy_enigma.Controller.Requests.{Request, Answer, handle}
use crispy_enigma.Controller.OthersWallets.{handle-Keeps}
use crispy_enigma.Gateway.Cookies.{Text}
use crispy_enigma.Gateway.Guards.{
  AuthUser, Headers, Guarded, allowed, refused, Verify, Ably, jwt_guard, presence_guard, has_items,
  is_user_present,
}
use crispy_enigma.Gateway.Routes.{
  Rule, Link, up, lost_before, lost_after, send, guard, serve, needs_presence, all_pass, body_rules,
}

send-Keeps :
    (player : ℕ) (link : Link) (engine : Store → Handled Answer) (db : Store)
    → Keeps player db (engine db).store
    → Keeps player db (send link engine db).store
unfolding send
send-Keeps player up engine db h = h
send-Keeps player lost_before engine db h = refl
send-Keeps player lost_after engine db h = h

Guarded-cases :
    (g : Guarded AuthUser)
    → ((refusal : _) × (g ≡ refused refusal)) ⊎ ((user : AuthUser) × (g ≡ allowed user))
Guarded-cases (allowed user) = inr (user, refl)
Guarded-cases (refused refusal) = inl (refusal, refl)

user_or : AuthUser → Guarded AuthUser → AuthUser
user_or d (allowed user) = user
user_or d (refused refusal) = d

allowed-injective : (user v : AuthUser) → allowed user ≡ allowed v → user ≡ v
unfolding user_or
allowed-injective user v h = ap (user_or user) h

-- Ably has a key, and one of the two reads of the user's presence finds an item.
abbrev pub is_present : Ably → ℕ → Bool
is_present ably user =
    ably.has_key
    && (is_user_present ably.has_key (ably.first_read user)
        || is_user_present ably.has_key (ably.second_read user))

presence_guard-allowed :
    (ably : Ably) (user v : AuthUser)
    → presence_guard ably (some user) ≡ allowed v
    → (v ≡ user) × (is_present ably user.user_id ≡ true)
unfolding presence_guard
presence_guard-allowed ably user v h = elim (Bool-cases ably.has_key) [
  | inr k ↦ let impossible = rw (k, presence_guard) at h in cc
  | inl k ↦ elim (Bool-cases (has_items (ably.first_read user.user_id))) [
    | inl a ↦
        let same = rw (k, a, presence_guard) at h in
        (sym (allowed-injective user v same), rw (k, a) refl)
    | inr a ↦ elim (Bool-cases (has_items (ably.second_read user.user_id))) [
      | inl b ↦
          let same = rw (k, a, b, presence_guard) at h in
          (sym (allowed-injective user v same), rw (k, a, b) refl)
      | inr b ↦ let impossible = rw (k, a, b, presence_guard) at h in cc
    ]
  ]
]

module _ (verify : Verify) (secret : Option Text) (ably : Ably) (headers : Headers) where
  -- The token is that of the player, who is present if the route asks for it.
  pub record IsPlayer (request : Request) (player : ℕ) : Type 0 where
    pub own_token : jwt_guard verify secret headers ≡ allowed (record { user_id = player })
    pub present : needs_presence request ≡ true → is_present ably player ≡ true

  guard-IsPlayer :
      (request : Request) (user : AuthUser)
      → guard verify secret ably headers request ≡ allowed user
      → IsPlayer request user.user_id
  unfolding guard
  guard-IsPlayer request user h = elim (Guarded-cases (jwt_guard verify secret headers)) [
    | inl (refusal, e) ↦ let impossible = rw (e, guard) at h in cc
    | inr (v, e) ↦ elim (Bool-cases (needs_presence request)) [
      | inl n ↦
          let passed = rw (e, n, guard) at h in
          let (same, here) = presence_guard-allowed ably v user passed in
          rw same (record { own_token = e; present = λ k. here })
      | inr n ↦
          let passed = rw (e, n, guard) at h in
          rw (sym (allowed-injective v user passed)) (record { own_token = e; present = λ k. cc })
    ]
  ]

-- A request through the gateway leaves a player's wallet as it was, unless it has a token that
-- verifies as that player, keeps the rules of its body, and, on a route of play, Ably has the
-- player present at one of the two reads.
pub serve-IsPlayer :
    (services : Services) (hmac : Hmac) (power : Power) (conv : Conversions) (draws : Draws)
    (id : ℕ) (verify : Verify) (secret : Option Text) (ably : Ably) (passes : Rule → Bool)
    (link : Link) (headers : Headers) (request : Request) (db : Store) (player : ℕ)
    → let engine = handle services hmac power conv draws id in
      Keeps player db (serve engine verify secret ably passes link headers request db).store
      ⊎ (IsPlayer verify secret ably headers request player
          × (all_pass passes (body_rules request) ≡ true))
unfolding serve
serve-IsPlayer services hmac power conv draws id verify secret ably passes link headers request db
      player =
    elim (Guarded-cases (guard verify secret ably headers request)) [
      | inl (refusal, e) ↦ inl (rw (e, serve) refl)
      | inr (user, e) ↦ elim (Bool-cases (all_pass passes (body_rules request))) [
        | inr p ↦ inl (rw (e, p, serve) refl)
        | inl p ↦ elim (Bool-cases (user.user_id == player)) [
          | inl k ↦
              let same : user.user_id ≡ player = grind arith in
              let passed : IsPlayer verify secret ably headers request user.user_id =
                guard-IsPlayer verify secret ably headers request user e in
              inr (subst (IsPlayer verify secret ably headers request) same passed, p)
          | inr k ↦
              let other : user.user_id ≢ player = grind arith in
              inl (
                rw (e, p, serve)
                  (send-Keeps player link _ db (
                    handle-Keeps hmac power conv draws id player user.user_id other services request
                      db)))
        ]
      ]
    ]

-- ===== src/Gateway.antt =====
-- apps/gateway/src: the guards in front of the engine (auth/jwt.guard.ts, auth/presence.guard.ts),
-- the call of the engine (engine.client.ts) and the routes (gateway.controller.ts).
pub mod Cookies
pub mod Splitting
pub mod CookieJar
pub mod Guards
pub mod Routes
pub mod OwnWallet

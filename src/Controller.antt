-- ===== src/Controller.antt =====
-- apps/engine/src/engine.controller.ts: the play service behind its message patterns.
pub mod Fanout
pub mod Handlers
pub mod Requests
pub mod Replies
pub mod OthersWallets

-- ===== src/Lib.antt =====
-- A model of the casino backend: the game engine, the wallet's play service and deposits, and the
-- gateway, the engine's controller and the worker around them.
--
-- The gateway (apps/gateway/src) lets a player's request through its guards and sends it to the
-- engine application (apps/engine/src/engine.controller.ts), which calls the play service
-- (libs/wallet/src/play.service.ts) and tells the result to browsers, queues and the bus; the worker
-- (apps/worker/src) consumes them, and scans pending deposits (libs/wallet/src/deposits). The play
-- service guards the request, draws seeds, asks the control layer (libs/engine/src/resolver.ts)
-- whether the round is forced, has the rules (libs/engine/src/rules.ts) resolve it from numbers drawn
-- off an HMAC (libs/engine/src/rng.ts), and writes wallet, bet, ledger and session to the database
-- (libs/db/src/schema.ts).
--
-- Base            lists and Boolean tests over the native numbers, Base/Int the signed numbers
-- Number          IEEE doubles, exactly: a finite one is a whole number of units of 2 ^ -1074, and
--                 every operation rounds the exact result to the nearest double, ties to even
-- Contracts       libs/contracts/src/games.ts: the types of games, selections and outcomes
-- Engine/Rng      rng.ts: seededFloat, seededInt, seededShuffle
-- Engine/Dice ... Engine/Keno   rules.ts, a module per game (resolveDice is resolve_dice, and so on)
-- Engine/Control  resolver.ts: decideForcedResult to applyWinCap
-- Engine/Round, Engine/Validate   resolver.ts: resolveRound, and validateSelection over JSON values
-- Wallet/Store    the tables as lists of rows, and getOrCreate of wallet.service.ts
-- Wallet/Writes, Wallet/RuleWrites   the statements that an operation runs one after the other
-- Wallet/Guards, Wallet/Bets    the private helpers and the statements that the operations share
-- Wallet/Instant, Wallet/Mines, Wallet/Towers, Wallet/Sessions   the operations of the play service
-- Wallet/Columns, Wallet/Net   columns as doubles and back, the net of a bet
-- Wallet/Isolation   whose wallets the operations touch
-- Deposits        libs/wallet/src/deposits: coins.ts in Coins, chain.ts in Chain, prices.ts in Prices,
--                 credit.ts in Credit, watch.ts in Watch and Watch/Inspect; Deposits/Machine
--                 specifies the moves of a deposit's status
-- Messages        channels.ts and events.ts of libs/contracts, and publishing to services that may fail
-- Controller      engine.controller.ts: fanoutBet is fanout_bet, and a handler for each command
-- Worker          the processors of the queues, the consumer of the bus and the cached histories
-- Gateway         auth/jwt.guard.ts (readCookie is read_cookie), auth/presence.guard.ts,
--                 engine.client.ts and gateway.controller.ts
-- Tests           the theorems at concrete inputs
--
-- An operation of the play service takes the store and gives a reply and the store after it. A reply
-- is a value, a failure with its message and code, or an exception. Money columns are counts of cents.
-- The statements after the update of a wallet are a list (Wallet/Writes) that runs until one of them
-- is rejected: the database is free to reject any kind of statement in a request, by a unique key, the
-- limit of a numeric column or a lost connection. What the earlier ones wrote stays, as there is no
-- transaction. The statements of one operation run without others between them; only
-- Wallet/Interleaved takes two cash-outs apart, at the point between their reads and their writes.
-- Keys, times, references, seeds and rejections come in as inputs. Parameters are the HMAC (a list of
-- hex digits), `Number` of texts and objects, and `**` with a whole exponent. The printing of a nonce
-- runs on fuel, the nonce plus one, which is more than its digits.
--
-- A handler's messages are a list of effects, which is performed against services that take each
-- message or not. The answers of explorers, the token check of jose, the answers of Ably, the rules of
-- class-validator and the fate of a call to the engine are parameters. The search for a free quote
-- runs on fuel, one more than there are used amounts.
--
-- Entries of the cache of histories end after twelve hours. Whether the worker's server hands it a
-- payload of the bus that carries no pattern is a parameter.
--
-- Not modelled: rejections of reads and of the update of a wallet, which change nothing, but for an
-- infinite amount, which throws; a payout that is NaN throws here too, where a numeric column of
-- Postgres would store it. Slugs of no game, which every operation refuses; other interleavings; the
-- timers that start scans; mail; the lock of the cache; seeding, migration and start-up.
pub mod Base
pub mod Number
pub mod Contracts
pub mod Engine
pub mod Deposits
pub mod Wallet
pub mod Messages
pub mod Controller
pub mod Worker
pub mod Gateway
pub mod Tests

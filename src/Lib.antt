-- ===== src/Lib.antt =====
-- BlockTic backend: a model of the NestJS services under src/, with the theorems about them.
--
-- The program sells tickets to people whose identity is verified: a lottery gives groups the right
-- to buy, seats are allocated, payments go through ECPay, tickets are minted as soulbound tokens on
-- Polygon, and a gate admits each ticket once. Audit logs and notifications record what happens.
--
-- State.antt      the database's tables, the OTP map, the nonces in Redis and the trace of the calls
--                 made outside (State/Actions.antt); those calls (State/Calls.antt); and the world
--                 that answers them (State/Answers.antt). An answer may depend on all calls before.
-- Exec.antt       a handler is a function of the state that returns or throws; what is written before
--                 a throw stays written, except in `transaction`, which gives the database back.
-- Entities.antt   the entities of */entities as records and their enumerations as data types.
-- Blockchain.antt src/blockchain/blockchain.service.ts; the polling loop in Blockchain/Polling.antt.
-- Auth.antt       src/auth/auth.service.ts: sendOtp, verifyOtp, register.
-- Seats.antt      src/seat-allocation/seat-allocation.service.ts: allocateSeats, findConsecutiveSeats,
--                 releaseSeat; Seats/Map.antt: getSeatMap. Which rows other transactions lock, and
--                 the database's order of rows, are arguments.
-- Ecpay.antt      src/ticketing/ecpay.util.ts: generateCheckMacValue.
-- Kyc.antt        src/identity/identity.service.ts, getKycStatus, which ticketing and lottery call.
-- Ticketing.antt  src/ticketing/ticketing.service.ts; Ticketing/Form.antt the form that is posted.
-- Gate.antt       src/gate-verification/gate-verification.service.ts; Gate/Entry.antt has the steps of
--                 verifyEntry, Gate/Face.antt the comparison of faces.
-- Lottery.antt    src/lottery/lottery.service.ts; Lottery/Winners.antt the pools and their winners.
-- Identity.antt   src/identity/identity.service.ts; Identity/Layers.antt the four KYC layers.
-- Audit.antt, Notifications.antt, Events.antt   the services of these names.
-- Guards.antt     src/common/guards/roles.guard.ts.
-- Api.antt        the controllers, src/*/*.controller.ts, one module each: Api/Http.antt has the guards
--                 and pipes that a request passes before its service is called, with
--                 src/auth/jwt.strategy.ts and src/common/guards/jwt-auth.guard.ts, Api/Dto.antt the
--                 request bodies of src/*/dto with their validation, Api/Routes.antt all endpoints as
--                 one type of requests, served one after the other.
-- Frames.antt     which tables the operations leave alone, used by the proofs about requests.
-- Startup.antt    what the services read of the environment: onModuleInit and the constructors.
-- Lifecycle.antt  what the operations on the tickets table do to the tickets' life cycle.
-- Samples.antt    a world and a configuration at which the tests run.
--
-- Operations keep the source's names in snake case (capturePayment is capture_payment). The world
-- stands for code that is not in the repository: SHA-256 and keccak, JWT, the clock, random numbers,
-- ids of new rows, the comparison of texts, ECPay, Rekognition, CompreFace and the contracts.
-- Properties that need something of it say so by a hypothesis, such as that new ids are fresh.
--
-- Scores and thresholds of faces are integers, in ten-thousandths; times are milliseconds. The one
-- loop that is not structural is the VRF poll: its fuel is the longest wait divided by the interval,
-- plus 2: a round that gets no answer sleeps for the interval.
--
-- Not modelled: dependency injection, the throttler (a request it refuses reaches no controller), the
-- status codes and documentation of the API, response DTOs (the entities are what is returned),
-- logging, the smart contracts and the scripts. Numbers of request bodies are natural numbers; which
-- of several errors of one request's pipes is reported is not told apart. A handler runs without
-- others in between: a race that the source meets by a conditional update appears as the branch that
-- such an update takes, and rows that others lock are skipped, as the source's comment says. A save
-- does not fail: unique indexes refuse no row, and the branches for their error 23505 are left out;
-- so is what a failing save leaves behind where several writes are in no transaction, as at the end
-- of refundTicket.
pub mod Base
pub mod Exec
pub mod Entities
pub mod State
pub mod Blockchain
pub mod Auth
pub mod Seats
pub mod Ecpay
pub mod Kyc
pub mod Ticketing
pub mod Gate
pub mod Lottery
pub mod Identity
pub mod Audit
pub mod Notifications
pub mod Events
pub mod Guards
pub mod Startup
pub mod Lifecycle
pub mod Frames
pub mod Api
pub mod Samples

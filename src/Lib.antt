-- ===== src/Lib.antt =====
-- a2a-agent-layer: infrastructure for agent-to-agent communication, a NestJS service in TypeScript.
-- This library models the program's own logic and proves it correct.
--
-- The parts and how they interact. `ProtocolService.handleRequest` takes a signed request of one agent
-- to another. It hashes the canonical form of the request, presents the nonce to the nonce store, asks
-- the policy evaluator whether the callee's policies admit the sender, and meters: a usage record and a
-- signed receipt go to the database. The policy evaluator counts its decisions in the business metrics.
-- Before it comes there, a request passes the middlewares, which give it an id and check its CSRF token,
-- and the guards, which decide for whom it acts. What a handler throws is answered by the filters, and
-- reported by the interceptors. The logger puts the id of the request on every line.
--
-- Files, and the code that each models:
--   Common                the shared names: Boolean tests on numbers, lists, JavaScript strings as lists
--                         of code units, `Map` as an association list, outcomes of calls that may throw
--                         (`Outcome`), calls on a state (`Action`), JSON values
--   Protocol/Service      src/modules/protocol/protocol.service.ts: `handle_request` is `handleRequest`,
--                         composed of `check_hash`, `check_nonce`, `check_policy`, `meter` and
--                         `issue_receipt` in the order of its statements
--   Protocol/NonceStore   src/modules/protocol/nonce-store.service.ts: `assert_fresh` is `assertFresh`,
--                         `evict_expired` is `evictExpired`; `Event` and `run` are sequences of calls
--   Policy/Wildcard       `matchWildcard` of src/modules/policy/policy-evaluator.ts
--   Policy/Evaluator      `evaluatePolicyAccess` and its helpers, of the same file
--   Policy/Service        src/modules/policy/policy-evaluator.service.ts, and the policy entity
--   Crypto/Canonical      src/common/crypto/request-canonicalization.ts
--   Metering              src/modules/metering/metering.service.ts and its entities
--   Validation            src/common/validators/field.validators.ts, and the pipes that parse a DID and
--                         an Ethereum address, of src/common/pipes
--   Observability/BusinessMetrics   src/observability/business-metrics.service.ts
--   Auth/RefreshToken     src/common/auth/refresh-token.service.ts
--   Identity/Claim        src/modules/identity/did-controller.ts
--   Identity/Service      src/modules/identity/identity.service.ts, its entity and transfer objects
--   Blockchain/Retry      src/common/blockchain/retry.util.ts, which the identity service calls
--   Pricing               src/modules/pricing/pricing.service.ts and the tariff entity
--   Catalog               src/modules/catalog/catalog.service.ts, its entity and its query object
--   Metering/Rollup       src/modules/metering/metering-rollup.job.ts and the rollup entity
--   Auth/ApiKeys          src/common/auth/api-key.service.ts
--   Auth/Guards           the guards of src/common/auth, in the order of src/app.module.ts
--   Auth/Passwords        src/common/auth/password.service.ts
--   Config                src/config/security.config.ts, and the reading of numbers from the environment
--   Middleware/Csrf       src/common/middleware/csrf.middleware.ts
--   Middleware/RequestId  src/common/middleware/request-id.middleware.ts
--   Sanitize              src/common/pipes/sanitize.pipe.ts
--   Filters               the exception filters of src/common/filters
--   Interceptors          the interceptors of src/common/interceptors, and
--                         src/observability/controller-metrics.interceptor.ts
--   Logging               src/common/logging: the pino logger and the context of a request
--   Health                src/modules/health/health.service.ts
--   Observability/DomainGauges   src/observability/domain-gauges.service.ts
--   Observability/HttpMetrics    src/observability/http-metrics.middleware.ts and what it calls of
--                         src/observability/metrics.service.ts
--   Observability/Tracing src/observability/tracing.ts and traced-blockchain.ts
--   Chain                 src/blockchain: `NonceManager`, `pollReceipt`, `awaitFinal` and, with
--                         src/config/networks.ts, `contractAddresses`
--   Policy/Records        src/modules/policy/policy.service.ts
--   Blockchain/Service    src/common/blockchain/blockchain.service.ts and src/config/blockchain.config.ts
--
-- How the code is read. A service's state is a record, and a method a function from its arguments and
-- the state to an outcome and the state after it; what a call has changed before an exception stays
-- changed. Clocks, random values and the answers of the database are arguments. Numbers are natural
-- numbers: a difference that may be negative in the code is written as a sum on the other side of the
-- comparison, and subtraction stands only where the code does not go below zero. A number in JSON is its
-- text. The loop of the retries runs on the attempts that are left. The polling of a receipt runs on fuel,
-- of which a unit for each millisecond of its timeout and two more are shown to be enough; the waiting for
-- a final registration, which the code does for ever, runs on any fuel; and the printing of a number has
-- one unit for each digit at least. What happens in any order, such as scrapes and the answers to their
-- queries, or requests and the events of their responses, is a list of events that a state runs through.
-- A dependency that may never answer is an optional pair of a time and an answer.
--
-- What is a parameter: the database (`Repository` with its contract `IsRepository`, and the like for the
-- agents, the tariffs, the services and the rollups), the JWT library, SHA-256, HMAC and scrypt, the
-- recovery of a signer, the contract calls, the blockchain service's hash and signature, `JSON.parse`,
-- `decodeURIComponent`, the throttler, and floating-point numbers and their text. The hypotheses on them
-- are named in the theorems, and the tests instantiate them. A table keeps of a receipt its texts: a jsonb
-- column keeps properties in an order of its own, and a decimal column writes its numbers in its own way.
-- Queries give the rows of one time in any order.
--
-- What is not modelled: the controllers, modules, decorators and entry points, which declare routes
-- and wire the services, but for the order of the guards and of the filters; the migrations; the
-- Solidity contracts; the security headers and the throttler's settings, which are fixed; and what
-- prom-client, pino and OpenTelemetry do with what they are given. What the code logs is left out,
-- but for a hash mismatch and the lines that the logger itself builds.
-- The regular expression engine is a reading of the two shapes that `matchWildcard` builds, and the
-- patterns of the validators and of the sanitizing pipe are functions that walk the text.
pub mod Auth
pub mod Blockchain
pub mod Catalog
pub mod Chain
pub mod Common
pub mod Config
pub mod Crypto
pub mod Filters
pub mod Health
pub mod Identity
pub mod Interceptors
pub mod Logging
pub mod Metering
pub mod Middleware
pub mod Observability
pub mod Policy
pub mod Pricing
pub mod Protocol
pub mod Sanitize
pub mod Validation

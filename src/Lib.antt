-- ===== src/Lib.antt =====
-- OpenKedge: the evidence store, its traces and the temporal governance of src/core.
--
-- An agent proposes an intent. What happens to it is logged as evidence events, each with the hash
-- of the one before. Some of these events are also the trace of the proposal: it is reserved,
-- runs, and succeeds or fails. Temporal rules allow or reject a proposal by the traces of the
-- past, and the check and the reservation are one transaction of the store.
--
-- Prelude holds what the parts share: tests, lists, texts, association lists, results, integers,
-- permutations; Prelude/Doubles is the addition of doubles that are natural numbers. Json is a
-- data type of JSON values, whose numbers are integers or not finite, with readPath,
-- Json/Canonical is canonicalJson and Json/Snapshot immutableSnapshot
-- (src/core/crypto/canonical.ts), which Contracts/Snapshot takes to the shared types. Contracts
-- has the shared types (src/interfaces/contracts.ts, src/core/governance/types.ts). Trace is
-- src/core/event/trace.ts: an event finished and projected to a trace record. Chain is the hash
-- chain that results. Store is the class InMemoryIEECStore (src/core/event/InMemoryIEECStore.ts)
-- with its maps as association lists; Store/Order is about the sorted lists of successes,
-- Store/Index about what the indexes mean, Store/Commit about commit, Store/Search about the
-- binary search, and Store/Query about queryTrace. Transaction is the transaction of that class;
-- its callback is a program of calls, whose continuation gets what a call returned or threw.
-- Transaction/Effects and Transaction/Reads say how a commit changes what the store and a
-- transaction answer, Transaction/Invariant, Transaction/History and Transaction/Append what a
-- transaction keeps and does. Rules and Temporal are src/core/governance/temporal.ts, the rules
-- and their evaluation, Temporal/Laws says what an allowed evaluation means, and Encode the JSON
-- of an intent and of a record, which its paths walk. Signing is the signature of a JSON value
-- (src/core/crypto/canonical.ts), Capability is src/core/crypto/capabilities.ts and
-- ExecutionContracts src/core/crypto/executionContracts.ts. Governance is verifyCapabilities of
-- src/core/governance/TemporalGovernance.ts, and Governance/Reserve its reserve, a program over
-- the transaction; Governance/Latest and Governance/RateLimit follow a reservation from the rules
-- to the store. Replay is src/core/event/ReplayEngine.ts, Blast the estimator and the policy of
-- src/core/blast, and Identity src/core/identity/Identity.ts. Governance/Unlock is the rest of
-- that class. World is what asynchronous code runs in, with Prelude/Effects for its steps: the
-- store, which others may change at each await, the log of the calls that go outside, and a clock
-- that may tell anything. Manager is src/core/identity/IdentityManager.ts; Manager/Laws and
-- Manager/Revocation say when the function runs and that the identity is revoked, and
-- Manager/Keeps is the rule for what the whole keeps; Manager/Race is the end of withIdentity
-- against its timer, Manager/Entries counts what is seen of it, and Manager/Timely says when the
-- identity is revoked there. Gateway is src/gateway/Gateway.ts with the claims of
-- src/gateway/config.ts: Gateway/Safety the decision (and
-- src/adapters/aws/AwsSafetyPolicyEvaluator.ts), Gateway/Admit the admission, Gateway/Execute with
-- Checks and Dispatch the execution; Gateway/Keeps, Gateway/Admission and Gateway/Execution are
-- the rules for what they keep, Gateway/Consumption is about the transaction that consumes a
-- grant, and Gateway/Once, Gateway/Rejection and Gateway/Laws are about the calls of the adapter.
-- Evidence is a link of an evidence chain (src/core/evidence/EvidenceLink.ts) and Evidence/Chain
-- the chain (src/core/evidence/EvidenceChain.ts); Evidence/Laws is about the chain that grows, and
-- Evidence/Binding about what its last hash binds. Controller is the state of the policy
-- controller (src/control-plane/controller.ts) with src/control-plane/protocol.ts,
-- Controller/Handlers what the server does between two awaits, and Controller/System the server as
-- steps; Controller/Ledger is the ledger of the changes that it may make, Controller/Checks what
-- its checks make sure of, and Controller/Changes that it implements the ledger; Controller/Laws
-- and Controller/Outcomes are what follows for permits, epochs and outcomes. Tests has the
-- concrete inputs.
--
-- A transaction is one step: the mutex of the store runs one transaction at a time, and a callback
-- awaits each of its calls. SHA-256 (EventHasher, hashJson) and the HMAC are parameters, the
-- records Hashing and Hmac; the UUIDs that are drawn and the time that the clock tells are
-- arguments. Times are natural numbers, where the program has doubles: the same for the integers
-- below 2^53 that its checks ask for. Metrics are the doubles that are natural numbers, and their
-- sums are rounded as the program's are; a reason that tells a sum from 2^53 on tells all its
-- digits here. The binary search works on 32-bit indexes and runs on the length of the list as
-- fuel, which its proofs show to be enough below 2^31 records. In World each await is a step at
-- which other clients of the store may have committed any transactions, and a call of the store
-- may be refused or lose its answer; the reads of one verification are one step, and two
-- executions in one process follow one another. The function that Manager and Gateway have
-- withIdentity run ends before the timer of its contract. A record object's identity is the number
-- of the commit that made it.
--
-- Not modelled: the durable stores and the AWS adapters, which hand their work to SQL, files and
-- the SDK; the command line, the servers and the demos, which are input and output; the
-- controller's client and the engine; validatePolicy of src/gateway/policy.ts, an argument of the
-- controller; the export of an evidence chain as JSON; a timer of withIdentity that fires in
-- Gateway, where the callback then goes on beside what follows; bigints and instances of classes
-- in JSON values; the summary text of a replayed step.
pub mod Prelude
pub mod Json
pub mod Contracts
pub mod Trace
pub mod Chain
pub mod Store
pub mod Transaction
pub mod Encode
pub mod Rules
pub mod Temporal
pub mod Signing
pub mod Capability
pub mod ExecutionContracts
pub mod Governance
pub mod Replay
pub mod Blast
pub mod Identity
pub mod World
pub mod Manager
pub mod Gateway
pub mod Evidence
pub mod Controller
pub mod Tests

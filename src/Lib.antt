-- ===== src/Lib.antt =====
-- A verification library for the deterministic core of VIGIL APEX: the hash-linked audit log and the
-- witnesses that are compared with it, the stream worker that every pipeline stage extends, and the
-- rules that decide when to stop, retry, reroute or escalate.
--
-- The parts and how they work together. Every service appends its actions to the audit log
-- (packages/audit-chain). worker-anchor commits ranges of the log to the Polygon contract and sends the
-- high-significance events one by one; worker-fabric-bridge copies the hash of each row to the Fabric
-- chaincode. audit-verifier sweeps the log again, checks the anchored commitments, and compares the log
-- with what the chaincode lists; worker-audit-watch sweeps a window at each tick and appends what it
-- finds; worker-reconcil-audit compares all three and plans repairs. The anomaly rules of
-- packages/audit-log read the same events. The pipeline stages are workers on Redis streams
-- (packages/queue), guarded by the breaker, the backoff and the retry budget; what they ask of a
-- language model goes through the router and its cost ceilings (packages/llm). The certainty engine
-- weighs the signals of a finding into a posterior and a tier. A finding of the highest tier is put to
-- the council's vote (packages/governance, apps/worker-governance), and one that the council escalates
-- is rendered and routed to an institution (packages/shared/src/routing). Tips are opened with a key
-- whose shares the council holds (packages/security).
--
-- Files and the code they are about. The names are the source's, in snake case.
--   Common              shared names, Boolean tests, lists, maps, texts; no code of its own
--   AuditChain.Platform SHA-256, Unicode, JSON, Date and the Postgres columns, as parameters with laws
--   AuditChain.Json, AuditChain.Canonical   packages/audit-chain/src/canonical.ts
--   AuditChain.Store, AuditChain.Append, AuditChain.Chain, AuditChain.Verify
--                       packages/audit-chain/src/hash-chain.ts: the table and its queries, append with
--                       its three attempts, what a chain is, and verify with its batches
--   AuditChain.Offline  packages/audit-chain/src/offline-verify.ts: verify; parseCsv in Csv, parseRows in
--                       Rows
--   AuditChain.Demo     a concrete platform and a log, for the tests
--   Ledger              packages/audit-chain/src/verifier.ts; Ledger.Merkle is
--                       computeMerkleRootForRange of apps/worker-anchor/src/index.ts
--   Anchor              apps/worker-anchor/src/index.ts: the loop's tick; commit of
--                       packages/audit-chain/src/polygon-anchor.ts and of
--                       contracts/contracts/VIGILAnchor.sol
--   Anchor.HighSig      apps/worker-anchor/src/high-sig-loop.ts
--   CrossWitness        apps/audit-verifier/src/cross-witness.ts
--   Chaincode           chaincode/audit-witness/src/contract.ts; Chaincode.Spec is what it promises
--   FabricBridge        apps/worker-fabric-bridge/src/index.ts: the handler; submitCommitment of
--                       packages/fabric-bridge/src/client.ts
--   Watch               apps/worker-audit-watch/src/index.ts: the chain pass
--   Anomaly             packages/audit-log/src/anomaly.ts
--   Reconcile           apps/worker-reconcil-audit/src/reconcile.ts
--   Queue               packages/queue/src/worker.ts and types.ts: process in two halves, claim up to
--                       the handler and settle after it; Queue.Concurrency is effectiveConcurrency,
--                       recordOutcome and isHealthy
--   Llm.Circuit, Llm.Router, Llm.Cost
--                       packages/llm/src/circuit.ts, router.ts and cost.ts
--   Observability.Backoff, Observability.Budget, Observability.Sentinel
--                       packages/observability/src/loop-backoff.ts, retry-budget.ts and
--                       sentinel-quorum.ts
--   Certainty           packages/certainty-engine/src/bayes.ts; Certainty.Assess is assess.ts and
--                       adversarial.ts
--   Routing             packages/shared/src/routing/recipient-body.ts and case-load-routing.ts
--   Governance          packages/governance/src/quorum.ts
--   Ceremony            apps/worker-governance/src/vote-ceremony.ts
--   Shamir              packages/security/src/shamir.ts
-- In each of them the file with the name of the part holds the definitions, the files below it the
-- proofs, and Tests the theorems at concrete inputs.
--
-- How the code is read. A JavaScript string is the list of its code units. Numbers of rows, times and
-- seqs are natural numbers; where the source subtracts, the tests are written as inequalities of sums,
-- so that no subtraction is cut off. A thrown error is a value. State is passed explicitly: a table is
-- the list of its rows, Redis is its pending ids, locks and dead letters. Awaited calls are steps: the
-- worker's interleavings are the step relation Queue.Step, and the other writers of the log are part of
-- each attempt of append. Promises that are awaited at once, logging and metrics leave no trace.
--
-- What the source calls and does not contain is a parameter with laws: SHA-256 and Unicode, the
-- doubles of the posteriors with their comparisons, the world state of a Fabric peer, and the signer
-- of a Polygon transaction, which answers with the hash of what was broadcast. A clock is an argument,
-- the time at which the call is made.
--
-- Loops and their bounds. HashChain.verify, which the chain pass of worker-audit-watch calls too, and
-- the windowed cross-witness sweep run on fuel `upper + 2` and `to + 2`: each round moves the cursor
-- past at least one seq, so that the fuel outlasts the range. The layers of the Merkle tree run on as
-- many rounds as there are leaves. The attempts of append run on the three that the source gives them.
-- The endless loops of the workers are taken tick by tick. All other loops follow a list.
--
-- Not modelled: connections, SQL other than what the queries mean, HTTP, IPFS, Vault, the smart
-- contracts but for the commitments of VIGILAnchor, the rendering of dossiers, the adapters of public
-- registries, the dashboard, and the Python packages. They are I/O, a framework's, or another
-- language's. The federation stream, the extraction and the resolution of entities, the
-- patterns, the tip channels and the feedback on outcomes are code of their own that the library does
-- not reach.
pub mod Common
pub mod Anchor
pub mod Anomaly
pub mod AuditChain
pub mod Ceremony
pub mod Certainty
pub mod Chaincode
pub mod CrossWitness
pub mod FabricBridge
pub mod Governance
pub mod Ledger
pub mod Llm
pub mod Observability
pub mod Queue
pub mod Reconcile
pub mod Routing
pub mod Shamir
pub mod Watch

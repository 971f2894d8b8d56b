-- ===== src/Lib.antt =====
-- Consequence Rail: an orchestrator that lets an action with a consequence run only while a remedy is
-- reserved for it, and that keeps a signed log from which a third party can check what happened.
--
-- The parts, and the files that model them (paths from the repository's root):
--   State            src/rail-state.js: the 24 states, the transition table, the receipt's outcome.
--   Json, Canonical  src/canonical.js: JSON trees, copyJson's limits, canonical text, digest.
--   Errors           src/errors.js: a throw is a value, `rail_error code` or `foreign` for any other.
--   Signing          src/signing.js: signArtifact and verifyArtifact, on whole values in
--                    Signing.Artifact.
--   EventStore       src/event-store.js: append with its hash chain, verifyEventChain.
--   Postconditions   src/postconditions.js: the clauses of a postcondition and their evaluation.
--   Rail             src/rail-class.js, src/rail-schema.js: the orchestrator. Rail.Records has its
--                    values, Rail.Interface what it takes from its connector and its clock,
--                    Rail.Session the calls on one action, Rail.Validate and Rail.Encode the checks
--                    and the signed bodies, Rail.Admission, Permit, Preflight, Execution, Evidence,
--                    Outcome and Remedy the methods by phase, Rail.Lifecycle what they share, and
--                    Rail.World the map of actions with propose and the public calls.
--   Verify           src/verify.js: the replay and its outcome, Verify.Bundle the integrity of a settlement
--                    bundle, Verify.Semantics its lifecycle, Verify.Checkpoint a recorded checkpoint and
--                    the timeline. Rail.Export makes the bundle of an action.
--   Recovery         src/recovery-preflight.js: the contract of a drill, runRecoveryPreflight and
--                    verifyRecoveryPreflight; its values are in Rail.Records.Drills.
--   Connector        what the two synthetic connectors share: results bound to idempotency keys, and
--                    the reservations they hold.
--   Refund           src/mock-refund-connector.js: the refund processor.
--   Inventory        src/mock-inventory-connector.js: the warehouse. Each of the two is an instance of
--                    Rail.Interface.Connector, so it can be the orchestrator's outside.
--   JsonInput        src/json-input.js: the refusal of a text that names a member twice, on the tokens
--                    that its pattern matches; JSON.parse and the pattern's matches are JavaScript's.
--   TrustConfig      src/trust-config.js: parseTrustedKeys, with isValidKeyId and parsePublicKeyPem of
--                    src/signing.js. RegExp, trim and node:crypto are the fields of Platform.
--   Examples         a concrete run from proposal to settlement, and the theorems at it.
--
-- How they interact. A public call finds its action in the World, runs a Method on a Session (the
-- outside, the action's record, its events) and stores what is left. A method is a function from a
-- session to a result and a session: what it wrote before a throw stays written. `transition` checks
-- the table, appends a STATE_TRANSITION event and then sets the state; every event goes through
-- `append_event`, every other field through `assign`. The connector and the clock are functions on
-- an arbitrary state E of the outside, which may change at every call and may throw.
--
-- How it is proved. Rail.Session.Keeps has an induction principle: a predicate on sessions that
-- survives a change of the outside, an assignment, an event that is no transition and a permitted
-- transition (`Stable`) is kept by every method. Rail.Stable shows it for each method and then for
-- every sequence of calls, also failing ones. Rail.History takes it at the predicates on logs.
-- Rail.Guards, Rail.Receipts and Rail.Proposals invert a block that returned, call by call, to what it
-- has checked and written. Verify.Steps is induction on a replay.
--
-- Numbers are naturals: a time is its number of milliseconds, and an amount is one that
-- assertSafeInteger admits; the bound 2^53 - 1 is tested where the source tests it. Nothing runs on
-- fuel: every loop is a recursion on a list or on a JSON tree.
--
-- Parameters, for code that is not in the repository: JSON.stringify of a leaf, SHA-256, Ed25519,
-- Date.toISOString and Buffer are the fields of Canonical.Runtime. Where a theorem relies on the key
-- pair, Signing.RoundTrip.IsTrusted has what node:crypto documents of it.
--
-- The limits of copyJson (depth, nodes, string units) are Canonical.representable. They are tested where
-- a proposal is admitted, where a connector's digest can throw after an effect, where a recovery bundle
-- is copied, and in Signing.Artifact. Canonical.digest, sign_artifact and verify_artifact are their results on values
-- within the limits; the refusal of a value beyond them is not modelled elsewhere.
--
-- Not modelled: the adapter of the recovery drill (src/mock-refund-recovery-adapter.js; an adapter is a
-- function on the outside), the text of a checkpoint (src/verify.js), inspect, the shape
-- checks that the record types carry already (src/bundle-validation.js), and what is input and output:
-- the HTTP sidecar, the command line, files, rendering, demos. Each call runs to its end before the
-- next one starts, so an interleaving at an await of the connector is not covered.
pub mod Base
pub mod State
pub mod Json
pub mod Canonical
pub mod Errors
pub mod Signing
pub mod EventStore
pub mod Postconditions
pub mod Rail
pub mod Verify
pub mod JsonInput
pub mod TrustConfig
pub mod Recovery
pub mod Connector
pub mod Refund
pub mod Inventory
pub mod Examples

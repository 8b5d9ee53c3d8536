-- ===== src/Lib.antt =====
-- The core of the MUSUBI backend (apps/backend): the orchestration crate, with its outbox of
-- messages to deliver and its inbox of commands to consume, the decisions on Social Trust facts,
-- the money and the backend contract of settlement, and the service that checks proofs of presence
-- at a venue.
--
-- Parts. A writer commits a change together with an outbox message
-- (`commit_authoritative_write`). A relay claims the first ready message under a lease, publishes
-- it and ends the attempt (`deliver_ready_outbox`). A consumer begins a command in its inbox, runs
-- the handler and ends the attempt (`consume_command`). Failures are retried after a delay or
-- quarantined, by the policies. Finished rows are archived when their retention time is over
-- (`prune_coordination`). The Social Trust crate decides, without state, which intake attempts are
-- candidates, which mutation facts are persisted and who may consume a persisted fact. The
-- settlement crate has checked arithmetic on money and the trait of a settlement backend, whose
-- calls are guarded by the pin of the backend and its capabilities. The proof service issues a
-- challenge to a subject (`start_proof_challenge`) and checks the envelope that answers it, by a
-- display code of the venue or an operator's PIN (`submit_proof_envelope`); it counts failed
-- attempts, quarantines, consumes an accepted challenge, and prunes its maps before and after each
-- call.
--
-- Files, with the code they model:
--   Orchestration/Model      apps/backend/crates/orchestration/src/model.rs, error.rs
--   Orchestration/Payload    apps/backend/crates/orchestration/src/model.rs: the constructors and the
--     canonical text of a payload, with its hash, over Orchestration/Json
--   Orchestration/Policy     apps/backend/crates/orchestration/src/policy.rs
--   Orchestration/Store      apps/backend/crates/orchestration/src/store.rs: the state and its
--     private tests; Store/Outbox, Store/Inbox and Store/Prune are the operations, under their
--     names in the source, and Store/History runs of calls
--   Orchestration/Runtime    apps/backend/crates/orchestration/src/runtime.rs, over the record of
--     operations `OrchestrationStore` (the trait); Runtime/Interface fills it with the in-memory
--     store; Runtime/Drain repeats a delivery at one instant, Runtime/Rounds at several
--   SocialTrust              apps/backend/crates/social-trust-domain/src/lib.rs: References and
--     Sources, Rejected, Facts, Boundary are its types with their codes; Intake, Mutation (over
--     Proposal), Consumption and Scope are the four decisions, guard by guard
--   Settlement               apps/backend/crates/settlement-domain/src: Currency and Money (money.rs),
--     Capabilities (descriptor.rs), Backend (backend.rs, commands.rs, payload.rs, errors.rs,
--     descriptor.rs) and Backend/Results (results.rs, observation.rs)
--   Proof                    apps/backend/src/services/proof.rs: State and Messages (the records),
--     Texts, Digest (what is hashed), Keys with Keys/Prune, Challenge (counts), Sort and Prune,
--     Start, Verify with Verify/Chain (the guards in their order) and Submit; Proof/Invariant has
--     the runs of calls, with Invariant/Records on the submissions and their replay keys, and
--     Invariant/Handed on the PINs that the starts hand out
--   HashMap, Prelude         the standard library as the code uses it
--
-- How it is modelled. A store is a record, and an operation takes the store and gives its result
-- with the store that follows, also where it fails. A `HashMap` is the list of its entries in
-- the order of its iteration, which is any order. A `Uuid` is its 128-bit number, a `DateTime`
-- its place in the order of instants; `DateTime` arithmetic is chrono's, and a parameter
-- (`Chrono`). An `attempt_count` is a `u32` and wraps at 2^32, as the release build does;
-- `next_causal_order` is an `i64` and wraps at 2^64 with its order that of the signed number, so
-- results on the order of messages ask for fewer than 2^63 writes. Retry delays saturate at the
-- bounds of an `i64`. The futures that publish and handle are functions: the runtime holds its
-- store exclusively while it awaits them. A callback may end late: Store/History has runs of
-- store calls in any order. There is no loop beyond lists, hence no fuel; the `Display` of an
-- `i32` runs on ten digits, the most that one has.
--
-- In the proof service a text from outside is the list of its code points and a word of the service
-- a string. chrono, SHA-256 and HMAC are the parameters of `Crates`; a hash over several updates is
-- that of the bytes one after another, and `verify_slice` is equality. The identifiers of
-- `Uuid::new_v4` are arguments. The one lock is held through a call, so a call is a function of the
-- state; a failed start gives the state beside its error. A set is a list, a JSON object of known
-- entries a record.
--
-- A `CurrencyCode` is the list of its code points; an `i128` is an integer tested against its
-- bounds. What a settlement backend does outside is a function of the state of the world, a
-- parameter of the trait.
--
-- Not modelled: the PostgreSQL store and the services over SQL, whose state and transitions are
-- statements that the database runs; HTTP handlers, the command line of the migration runner with
-- db-runtime, the database migrations and the mobile application. What serde_json writes for a
-- string and the SHA-256 digest are the parameter `Encoding`.
pub mod HashMap
pub mod Orchestration
pub mod Prelude
pub mod Proof
pub mod Settlement
pub mod SocialTrust

-- ===== src/Lib.antt =====
-- A model of the durable agent runtime, of document releases, of the differences between versions
-- of a document, of platform sessions and of the limits on clients of the ETL platform.
--
-- The program. The agent runtime (services/etl-worker/internal/agent) executes runs: a planner
-- decides, a registry of tools acts, and each step is persisted under a lease with a fencing
-- token, so that any node can take a run over. A tool may want approval, and its side effects are
-- compensated when the run fails. Document releases (internal/publicationworkflow and
-- internal/releasecenter) decide when a document may be published, which policy and which group of
-- approvers a release needs, whether a review still holds, and what a decision of an administrator
-- brings about. A reviewer is shown how two versions differ (internal/versiondiff). Who is logged in
-- is up to the sessions (internal/session): a manager that checks and renews credentials, over a
-- store of records. The middleware limits failed logins in a row and requests at once.
--
-- The files, under services/etl-worker/internal:
--   Common         helpers: Go's maps, trimmed and folded texts, errors as values
--   Agent.Types    agent/types.go; the package's errors are the data type Fault
--   Agent.Lock     agent/lock.go: MemoryLockManager's Acquire, Extend and Release; Fencing and Holding
--     are proofs
--   Agent.Store    agent/store.go: MemoryStore's CreateRun, LoadRun and SaveRun
--   Agent.Policy   agent/policy.go: StaticAuthorizer
--   Agent.Schema   agent/schema.go: JSONSchema.ValidateArguments on decoded JSON; Typing
--     and Conformance are proofs
--   Agent.Tools    agent/tools.go: Registry's register, lookup, execute and compensate
--   Agent.Approval agent/approval.go: MemoryApprovalStore
--   Agent.World    what the orchestrator's calls read and change, and how they are put together
--   Agent.Orchestrator agent/orchestrator.go: Start (NewOrchestrator, StartOrResume), Next
--     (ExecuteNext, RunToCompletion), Control (Cancel, RejectApproval, ApplyLifecycle), Tool and
--     Steps (what these call); the other modules below it are proofs
--   Release.Publication publicationworkflow/workflow.go: Assess and PublishApproved
--   Release.Center releasecenter/releasecenter.go, and riskRank of content_review.go
--   Release.Approvers releasecenter/approval_policy.go: MemoryApprovalPolicyStore and
--     AuthorizeApproval
--   Release.Decisions releasecenter/coordinator.go: ApprovalService's Decide, over a store of
--     requests, reviews and decisions that is an argument; Admission, Safety and FourEyes are proofs
--   Diff.Subsequence versiondiff/diff.go: lcsPairs
--   Diff.Compare   versiondiff/diff.go: Compare and the rest; the modules below both are proofs
--   Session.Types  session/manager.go: the records, and active_at (record.activeAt)
--   Session.Store  session/memory_store.go: memoryStore, one function per method
--   Session.Manager session/manager.go: New, Establish, List, RevokeManaged, Authenticate and
--     Revoke, over a Repository
--   Session.Access, Session.Lifecycle, Session.Rotation and the modules below Session.Store: proofs
--   Middleware.LoginGuard middleware/login_guard.go: MemoryLoginGuard, over rate limiters that are
--     an argument; Lockout is a proof
--   Middleware.Concurrency middleware/concurrency.go: the limiter's tryAcquire and release, and the
--     requests that Middleware lets in and that leave; Bounds is a proof
--   Examples       tests and instances of the theorems
--
-- How the state corresponds. A Go map is an association list whose order stands for the order of
-- a range. A struct behind a mutex is passed along, since each method holds the mutex for its
-- whole length; the memory stores copy what they take and give, so values are not shared. An
-- operation of the orchestrator is a function from the World (stored runs, locks, number of calls
-- made so far) to an outcome and a World. The clock, the planner, the tools' handlers and
-- compensators, the authorizer, the document readers and the publisher are code that the source
-- takes as interfaces: arguments here, those of the orchestrator functions also of the number of
-- the call, so that they may answer differently each time. Only the authorizer is one fixed
-- function of the actor and the tool. A call of one operation is not
-- interleaved with another's between its lease and its release.
--
-- Bounds. Times, durations and counts are natural numbers, the zero time is 0, and sums do not
-- wrap around; negative limits and durations are left out. RunToCompletion's loop runs on fuel:
-- 2 * max_steps + 2 rounds are enough, since a round adds a step or settles the step that waits.
-- The walk over the table of lcsPairs runs on fuel: the sum of the lengths is enough, since a step
-- moves on in one of the versions. A clock reading minus the idle timeout is positive, so the cutoff
-- that the manager hands to the store does not stop at 0; limits of a session policy are not
-- negative.
--
-- Not modelled: the Redis and Postgres stores, contexts with their timeouts and cancellation, the
-- decoding of JSON bytes (a raw message is given by what it decodes to), the text of error
-- messages, the formatted idempotency key (kept as its three parts), Step.Duration, random ids,
-- case mapping outside the letters that fold to ASCII, the text and the delivery of notifications,
-- and the start of reviews in releasecenter/coordinator.go. The other packages of the worker, the
-- other services and the web client are outside this library.
pub mod Common
pub mod Agent
pub mod Release
pub mod Diff
pub mod Session
pub mod Middleware
mod Examples

-- ===== src/Lib.antt =====
-- Verification of the Harness GitOps Agent Operator: its two controllers and their Harness adapters.
--
-- The operator runs two Kubernetes controllers.
--
-- The Agent controller (internal/resource/agent) registers one agent in Harness for each
-- HarnessGitopsAgent resource, or takes an existing one as it is. A registration first persists the
-- intent in the status, then looks the agent up, creates it with the UID of the resource as a tag, and
-- recognises it by that tag when the answer of a create call was lost. It keeps the agent's token in a
-- Secret and the agent's health in a condition. A finalizer deletes the mappings that refer to the
-- resource, waits until they are gone, and then deletes the agent, if the resource can prove that it
-- owns it.
--
-- The mapping controller (internal/resource/projectmapping) keeps one row of the Harness GitOps API, the
-- mapping of an Argo CD AppProject to a Harness project, for each HarnessGitopsProjectMapping resource.
-- A reconcile reads the resource, its Agent, the AppProject and the API key, lists the rows of Harness,
-- selects one, and verifies, adopts or creates it. Between resources that want the same row a claim
-- arbitration decides. A finalizer deletes the row of a deleted resource, if the resource can prove that
-- it owns it.
--
-- Each controller calls Harness through its adapter (sdk.go), which tries the candidates of a scoped
-- identifier and sorts the failures of the SDK client. Both share internal/harness (errors, identifiers,
-- sessions) and internal/resource (finalizers). The mapping controller reads the status and the Healthy
-- condition that the Agent controller writes; the Agent controller lists and deletes mappings.
--
-- Files:
--   Common, Text          shared names, tests on numbers, Go's `strings` functions; Text/Trim and
--                         Text/Order have their laws
--   Api                   api/v1alpha1; Api/Updates: the rules for an update of a spec
--   Setup                 internal/controller/setup.go, and the intervals in cmd/main.go
--   Harness/Errors        internal/harness/errors.go: error trees, ClassifyResponse, VerdictOf, APIError
--   Harness/Identifiers   internal/harness/identifiers.go
--   Harness/Session       internal/harness/session.go: SessionFromSecret
--   Harness/Replies       what the adapters share: a reply of the SDK client, its classification, the
--                         loop over the candidates of an identifier
--   Harness/Answers       the description of a Harness that keeps a directory
--   Agent/Types           the data of internal/resource/agent/sdk.go
--   Agent/Identity        registration.go: the UID tag and the comparison of agents
--   Agent/Client          the Harness SDK that sdk.go calls
--   Agent/Sdk             sdk.go: Create, Lookup, Delete; Agent/Sdk/Credentials: ResolveToken;
--                         Agent/Sdk/Readiness: Readiness
--   Agent/Environment     everything the Agent controller calls, and the trace of its calls
--   Agent/Status, Agent/Health
--                         conditions.go; reconciler.go: SessionForAgent
--   Agent/Registration    registration.go: reconcileAgentRegistration
--   Agent/Token           reconciler.go: the token Secret
--   Agent/Finalizers      internal/resource/finalizer.go, on Agent objects
--   Agent/Dependencies, Agent/Deletion
--                         finalizer.go: the mappings that refer to an Agent; reconcileDeletion
--   Agent/Reconcile       reconciler.go: Reconcile, reconcileReady
--   Agent/Calls           measures of a trace of the Agent controller
--   Mapping/Types         the data of internal/resource/projectmapping/sdk.go
--   Mapping/Client        the Harness SDK that sdk.go calls
--   Mapping/Sdk           sdk.go: List, Create, Delete
--   Mapping/Environment   everything the mapping controller calls, and the trace of its calls
--   Mapping/Scope         scope.go: resolveProjectMappingRequest
--   Mapping/Selection     state.go: selectProjectMapping
--   Mapping/Remote        state.go: the remote tuple of a status
--   Mapping/Ready         state.go: setReady and its callers' ways to return, sessionForAgent, intervals
--   Mapping/Claims        claims.go: the order of claims and the comparison of requests
--   Mapping/Eligibility   claims.go: which resources claim a row
--   Mapping/Arbitration   claims.go: the decision, requireProjectMappingClaim and its variants
--   Mapping/Verify        reconciler.go: reconcileSelectedMapping
--   Mapping/Create        reconciler.go: reconcileHarnessMapping
--   Mapping/Reconcile     reconciler.go: Reconcile; kubernetes.go: appProjectExists
--   Mapping/Finalizers    internal/resource/finalizer.go, on mapping objects
--   Mapping/CleanupIdentity, Mapping/Cleanup, Mapping/Finalize
--                         finalizer.go: resolveMappingCleanupIdentity and projectMappingCleanupRequest;
--                         the steps behind the list call; finalizeProjectMapping
--   Mapping/Quiet, Mapping/Calls
--                         measures of a trace: the create calls, the delete calls, and the create
--                         calls with no persisted intent right before them
--   Mapping/Events        kubernetes.go: ValidateMappingIntervals, the requests of an Agent event
--   Mapping/Status        the validation rules of the mapping status
--   Agent/Tests, Mapping/Tests, Harness/Tests, Api/Tests, Setup/Tests
--                         runs on concrete resources
-- A theorem stands in a child module of what it is about.
--
-- Correspondence: a Go function keeps its name in snake case. A handler is a function of the
-- reconciler and of a state, which holds the object in memory (Go mutates it in place) and the calls
-- made so far; it returns the outcome and the state after. A long Go function is cut at its early
-- returns into functions that call each other in the order of the code. Each answer of the Kubernetes
-- API, of the clock and of the Harness API behind `mappingReconcileAPI` and `harnessAgentAPI` is a
-- function of the calls made so far, so a theorem for every environment holds whatever others do in
-- between. An accepted write leaves the object in memory as it was sent. The functions of apimachinery
-- and controllerutil (conditions, finalizers, CreateOrUpdate, SetControllerReference) are parameters
-- too, with no assumption on them. In the models of the adapters the SDK client is the parameter: its
-- reply, an answer or an error with the HTTP response or none, is a function of the calls made so far.
-- A Go `(value, error)` is a `Result`; a nil pointer is `none`; an empty enumeration string is a
-- constructor.
--
-- Bounds: every loop of the code runs over a list and is structural recursion, so there is no fuel but in
-- `decimal`, which has one step for each digit and more. Durations and times are natural numbers of
-- nanoseconds. `sort.Slice` is insertion sort: of the order of equal claims nothing is used but the first
-- claim, and equal claims are of one resource; mappings and requests are sorted by names that differ.
-- Case mapping covers ASCII.
--
-- Not modelled: the Harness SDK client and its HTTP calls, a library outside the repository; the client
-- of a session, which is configuration (a session is its API key); the wiring of controller-runtime
-- (the SetupWithManager of each controller, the rest of cmd/main.go), which has no state of its own;
-- generated deep copies; logging; charts, configuration and tests against a cluster.
pub mod Common
pub mod Text
pub mod Api
pub mod Harness
pub mod Mapping
pub mod Agent
pub mod Setup

-- ===== src/Lib.antt =====
-- Ryuk, an inference control plane: its durable workflows, its admission of tenants, and the routing of
-- inference tasks to deployments.
--
-- The program takes requests of tenants, decides whether to admit them (backend/control/admission.py),
-- and runs them as workflows: a workflow is one task, or a graph of tasks (backend/workflows/graph.py)
-- with a budget (backend/workflows/budget.py). The store (backend/workflows/store.py) keeps workflows
-- in SQLite. A worker claims a workflow under a lease, writes to a journal that it dispatches, records
-- what came back, completes, and the result is validated. A worker whose lease is over loses the
-- workflow, which becomes uncertain; recovery commits what the journal proves and replays nothing.
-- A task itself is run by the router (backend/inference/router.py): it puts the deployments that are
-- eligible for the task (backend/inference/capabilities.py) in the order of the policy
-- (backend/inference/policy.py), and tries them within a deadline and the workflow's budget, with what
-- is known of them at run time (backend/inference/runtime.py). What a model is shown of a tenant's
-- conversations and sources comes from the context store (backend/context/store.py), and is fitted to a
-- model's context by backend/context/preparation.py.
--
-- Which file models which part:
--   Prelude            tests, numbers, dictionaries as association lists, errors as values; the
--                      checks of an identifier that several parts use
--   Context            `SQLiteContextStore` of backend/context/store.py with the records of
--                      backend/context/contracts.py: Tables has the rows, who may read them and the
--                      statements, Store the methods that write, Store.Reads the methods that read;
--                      Builder is backend/context/builder.py, Profiles and Preparation are
--                      backend/context/preparation.py with its records
--   Control.Admission  `QuotaPolicy`, `_TenantUsage`, and the methods `admit` and `release` of
--                      `AdmissionController` in backend/control/admission.py; Admission.Redis has
--                      the two scripts and the methods of `RedisAdmissionController`. Usage has
--                      the counters that a controller keeps and Bounds what its callers are told;
--                      Redis.Calls has sequences of calls and what their callers know, and Redis.Keys,
--                      Redis.Safety, Redis.Minutes, Redis.Keepers and Redis.Permits what the scripts keep
--   Workflows.Budget   `WorkflowBudget` of backend/workflows/budget.py
--   Workflows.Graph    `GraphNode`, `WorkflowGraph` and the acyclicity check of
--                      backend/workflows/graph.py; Graph.State has `NodeState`, `GraphState`, its
--                      transitions and the refresh of waiting nodes
--   Workflows.Store    `SQLiteWorkflowStore` of backend/workflows/store.py for single-task workflows:
--                      Tables has the rows and the statements, External what the store calls and its
--                      leases, Operations, Acceptance and Recovery the methods. Lifecycle, Keys,
--                      Rows, Effects, Advances, Reaches, Startup, Evidence and Expiry are about what
--                      each method does to the rows, Runs has sequences of methods, Guarantees,
--                      Crash and Replay are about what callers rely on. Graphs has the
--                      tables of graphs and the reading of a graph's state, Graphs.Budgets the methods
--                      on budgets and `DurableGraphBudget` of backend/workflows/graph_budget.py,
--                      Graphs.Transitions the creation and the transitions of nodes, Graphs.Nodes
--                      their leases, results, cancellation and recovery
--   Inference.Contracts, Inference.Errors  the records of backend/inference/contracts.py with the
--                      checks of their constructors, and the classes of backend/inference/errors.py
--                      as `FailureKind`
--   Inference.Deployment, Inference.Registry  identities and their assessment in
--                      backend/inference/deployment.py, and the two registries of
--                      backend/inference/registry.py
--   Inference.Runtime  `RuntimeStateStore` and the probes of backend/inference/runtime.py
--   Inference.Capabilities, Inference.Policy  `evaluate_capabilities` of
--                      backend/inference/capabilities.py, and `rank_candidates` of
--                      backend/inference/policy.py
--   Inference.Router   `InferenceRouter` of backend/inference/router.py: the selection and the order of
--                      deployments; Router.Attempt has one attempt and its record, Router.Pass the
--                      parts of one pass of the loop of `generate_task`, Router.Loop the loop
--   Inference.Attempts  attempts as dictionaries and back, of backend/inference/attempts.py
--
-- State is passed explicitly. A method of the store is a transaction: it returns a value and the new
-- store, or an error, in which case the old store stays. Interleavings of workers are the sequences of
-- methods, since each method runs under the store's lock and in an immediate transaction.
--
-- Numbers are natural numbers of unbounded size, as Python's are, except the estimate of tokens and the
-- reported output tokens, which can be negative and are integers. Times are milliseconds (admission,
-- budget) or microseconds (store) on a clock that the caller gives. The ISO texts that the store
-- compares are all in UTC, where their order is that of the times.
--
-- Fuel: the peeling loop of the acyclicity check gets one round for each node, since a round that
-- does not raise removes a node; the refresh of waiting nodes gets one round more than there are
-- nodes, since a round that changes something settles a blocked node. The loop that orders the
-- changes of a stored transition gets one round for each change, since a round that does not raise
-- removes one.
--
-- The loop of `generate_task` gets one round for each deployment in order and each attempt that the
-- policy allows, and one more, since a pass that goes on drops a deployment or makes an attempt.
--
-- The router's engines are answers: a pass of its loop has a turn, with what each awaited call comes to
-- (a value, an `InferenceFailure`, another exception, a timeout or a cancellation) and what the clocks
-- show. Awaited calls of other requests between two passes are not interleaved. Rates of failures are
-- pairs of numbers, and their rounding is exact. `str.lower` is that of ASCII texts.
--
-- Redis is a dictionary with one key for each tenant, whose scripts are steps; a script's numbers are
-- below 2^53, where Lua's are exact. A call that raises has not run, or has run and lost its reply.
--
-- Parameters, since they are not code of the repository: the hash and the JSON functions of Python's
-- library, the counter of a context's tokens, and the identifiers that `uuid4` returns (a repeated one
-- breaks a primary key and raises). The reading of a packet and the decision of
-- backend/workflows/validation.py are parameters of the store as well.
--
-- Not modelled: the reads of accepted graph artifacts, the engines and their construction from settings,
-- the translation of legacy requests, HTTP handlers, SQL text, locks and threads; and the checks that a
-- value has its annotated Python type, which the types of the model replace.
pub mod Prelude
pub mod Context
pub mod Control
pub mod Inference
pub mod Workflows

-- ===== src/Lib.antt =====
-- Verification library for project-firestarter.
--
-- The repository stamps projects from stacks and opt-in add-ons. This library models the add-ons
-- whose Python decides something by itself. Paths are from the repository's root.
--
-- Prelude: shared names, Boolean tests on the native numbers, ℤ over them, the interface Eq with
--   its instances for decidable equality, lists as tuples and frozensets, and `Result`, in which an
--   exception is a value.
--
-- Browser: addons/browser_automation_policy/common/tools/browser_automation_policy, the gate that
--   decides whether an agent's proposal to act in a browser is handed to an executor.
--   Kinds, Ids, Json, Binding, Targets, Grant, Observation, Proposal: contracts.py, with each
--     dataclass as a record and its `__post_init__` as a function `..._init` into Result;
--     Binding/Shape and Grant/Chains say what two of them guarantee.
--   Ledger: ledger.py. `_by_key` is an association list; each method takes the ledger and returns
--     its result with the new ledger, also when it raises.
--   Adapters: adapters/semantic_dom.py, relative_xy.py and citrix_remote.py.
--   Handoff: future_executor_handoff of evidence.py; the returned dict is a record.
--   Policy: policy.py. Tables holds its constants; Preflight, Confirm and Observe give the code of
--     the refusal, if any, of `_common_preflight`, of `_confirmation_valid` and of the checks of
--     `evaluate` and `evaluate_citrix`; Evaluate composes them with the ledger. The other children
--     prove: Permitted, Confirmed, Authorised and Remote say when nothing is refused; Authorize
--     runs the handoff; Guarantees, Once and Settled draw the consequences.
--
-- Auth: addons/auth/fastapi-next/backend/app, accounts upgraded from an anonymous device by a
--   one-time code.
--   Model: models/auth.py and the settings of core/config.py. Store: the in-memory store of
--     auth/store.py, each method a function from the store to its result with the new store.
--   Flows: services/auth.py, over a monad of a store and of exceptions as values (Flow).
--   Outcomes, Requests, Login and Tokens say what each flow answers and leaves in the store;
--   Sessions composes flows; Budget and Within bound the counters, Codes follows the challenges,
--   Accounts the accounts and their tokens.
--
-- Registry: addons/work_registry/common/tools/work_registry/registry.py, the noticeboard on which the
--   agents of a machine claim what they edit. Commands: its commands on the entries of the file, each
--   with its exit code. Claims: one command. Holding: sequences of commands.
--
-- Supervisor: addons/service_supervisor/common/tools/service_supervisor/supervisor.py, which starts local
--   services on demand, counts leases on them and stops them when they are idle.
--   Spec: the records. Parse, Parse/Entries: `Manifest.from_dict`; Parse/Valid says what it accepts.
--   Dag: `_validate_dag` and `closure`. Order and Ends: the search for an order; Closure and Accepted:
--     the closure against reachability.
--   Runtime: the state of `ServiceSupervisor` and of a service, and the interfaces Time and Adapter, which
--     the client takes as instances; Synthetic is the adapter of the source.
--   Machine: the sections of `acquire`, `_ensure_ready`, `_release` and `_rollback`. Reaper: those of
--     `reap_idle`, `plan_idle`, `set_retain`, `mark_failed` and `shutdown`; Idle compares the plan and the
--     reaper. Plans: `plan_wake`, `plan_idle` and `status`.
--   Threads: a thread is what remains of a call, a step runs one section or one call of the adapter, and
--     a schedule (a list of turns) is any interleaving of calls and steps. Local says what each section
--     does, Moves and Known what each step does, Leases, StaysDown and Shutdown what any schedule does.
--
-- Capacity: how much work runs at once.
--   Scheduler: addons/orchestrator_session/common/plugins/pm-proxy-orchestrator/skills/
--     pm-proxy-orchestrator/scripts/resource_scheduler.py; Scheduler/Lanes says what a schedule selects,
--     over the order of Scheduler/Ranking.
--   Adaptive: addons/orchestrator_session/common/orchestrator-control/adaptive_capacity_policy.py,
--     its requests in Requests; Bounds compares the capacities of two snapshots, Closed says how
--     `evaluate` ends.
--
-- Choices. A Python int is ℤ. A float is of a type F whose operations (the record FloatOps) are
-- parameters. SHA-256 over canonical JSON and over the nonce's text are parameters too (the record
-- Hashes, a function json_hex); nothing is assumed of them. A frozenset is a list, of which only
-- membership and inclusion are asked. The target's and the binding's properties that the source
-- reads again and again are computed where they are read. A refusal of the gate is first a code,
-- `Option DecisionCode`, and `decide` turns it into the Decision. Loops are structural recursion on
-- lists, but for two recursions of Supervisor. In Auth a datetime is an integer of microseconds; each reading of the
-- clock, each random value and the deliverer's answer are arguments of the flow that reads them;
-- string methods, regular expressions and hashes are fields of the record Stdlib, of which nothing is
-- assumed. The in-memory store never suspends, and a code is delivered after the last write, so a
-- flow is one step on the store. In Registry the clock's floats are of a type F whose two operations
-- are parameters (TimeOps), and the agent's identity is an argument of each command. In Supervisor the
-- recursions of `visit` and `collect` are on fuel: a call is made for a service that no caller is
-- visiting, so one more than the number of services is enough for the first, and the number of services
-- for the second. The loops that poll are steps of a thread, so no fuel is needed there. The clock is
-- a sequence of readings, of which nothing is assumed; times in milliseconds are numbers, and the
-- floats of the clock are of a type with the interface Time. A wait for a condition may end at any time.
-- After a failed wake `_shutdown` is read twice, in the section and after it, so these are two steps. A
-- `Lease` belongs to the thread that acquired it, and its first `release` is one step: `Lease.release`
-- tests and sets `_released` without a lock, and two threads that release one lease at the same moment
-- are not modelled. Neither is a clock that raises.
-- In Capacity a request and a profile are JSON values; the floats and the dates are parameters (Host), and an
-- exception that the code does not foresee is a constructor of Error. `load_ratio` divides by the number of
-- CPUs inside a test of Host that is total: a request gives at least one CPU, and a call of
-- `compute_capacity` with none, which raises ZeroDivisionError, is not modelled. Nor is the OverflowError of
-- the Registry's `_now() + ttl` for a ttl that no float can hold: `plus` of TimeOps is total.
--
-- Not modelled: the lock of the ledger (each method holds it for its whole body, so a method is one
-- step); from_contract_dict of grants and proposals, to_contract_dict of grants; evidence envelopes; the
-- voice intents; the routes, the PostgreSQL store and the deliverers of auth; the permits of the
-- supervisor and its command line; the digest of an evaluated capacity; the other add-ons, which read
-- files, databases, processes or the network.
pub mod Prelude
pub mod Browser
pub mod Auth
pub mod Registry
pub mod Supervisor
pub mod Capacity

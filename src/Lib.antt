-- ===== src/Lib.antt =====
-- ChaosAtlas runs fault-injection experiments on live applications, inside isolated environments,
-- judges what happened, and feeds reviewed knowledge into later projects. This library models the
-- parts that guard it.
--
-- Isolation (src/chaosatlas/isolation). A plan is validated and an environment is brought up under
-- a lease, which is a JSON document with a hash, stored as a file of its own; the lease moves
-- through the states of TRANSITIONS until the environment is released.
--   Isolation.Identity   SAFE_ID of contracts.py
--   Isolation.Secrets    SENSITIVE_KEY, SENSITIVE_VALUE, `sensitive_paths`, `redact_sensitive`
--   Isolation.Contracts  `with_hash`, `verify_hash`, `transition_lease` and the three validators;
--                        Contracts.Lifecycle is the graph of the lease states
--   Isolation.Blueprint  `compile_blueprint` and `derive_l2_blueprint`; Blueprint.Resource is
--                        `_validate_resource`, Confined and Owned hold the theorems
--   Isolation.Planner    `IsolationPlanner.plan`; Floor and Ready hold the theorems
--   Isolation.Store      `LeaseStore`: a disk of lease files, audits and the machine-wide L3 claim,
--                        on which each method is an action that may raise
--   Isolation.Manager    `IsolationManager`, calling the store and a provider, and `ProviderRegistry`
-- Feedback (tools/feedback_protocol.py). A run's result is classified, becomes a card, and a
-- reviewed card may enter the knowledge base of a later project.
--   Feedback.Classify    `classify_outcome`; Feedback.Verdicts is what its verdicts rest on
--   Feedback.Card        `build_feedback_card`
--   Feedback.Boundary    the knowledge boundary, the projection and the improvement evidence
--   Feedback.NextKb      `build_next_kb`; Feedback.Isolation is which cards it takes
--   Feedback.Ablation    `validate_ablation_pair`
-- Oracles (src/chaosatlas/oracles). A transaction that writes to the application under test records
-- what it did in a ledger, so that it can be cleaned up after a crash.
--   Oracles.Ledger       `RecoveryLedger` of recovery_ledger.py: Document is the ledger's validation
--                        and changes, Ledger its files; Change, Files, Exclusive, Operations,
--                        Resolved and Closed hold the theorems
--   Oracles.Contract     transaction_contracts.py, the way from the draft to the frozen contract:
--                        JsonPath is `_json_path`, Steps and Validate are
--                        `validate_transaction_contract`, Render is `_render_expected`, Assertions
--                        `evaluate_assertions`. Approval, Assertions.Total and Assertions.Verdict
--                        hold the theorems
--   Oracles.Ownership    `select_owned` of ownership.py, Exact its theorem
--   Oracles.Registry     ProbeWorkflowOracle of contracts.py and OracleRegistry of registry.py;
--                        Resolve holds the theorem
-- Policy (tools/policy_controller.py, tools/policy_selection_gate.py). A run's result becomes a row
-- from which the choice of the next experiment may learn, or which says why it may not; the next
-- experiment is chosen among the candidates that are left.
--   Policy.Feedback      `normalize_runtime_feedback`; Ruling and Eligibility hold the theorems
--   Policy.Gate          `select_candidates_with_policy`, Gate.Frozen its theorems
--   Policy.Controller    `PolicyController`, Controller.Fresh its theorems
-- Recovery (tools/recovery_contract.py). What counts as recovered after a fault.
--   Recovery             `contract_for_fault` and `valid_for_fault`, Recovery.Contract the theorem
-- Capabilities (src/chaosatlas/capabilities, tools/fault_catalog.py). Which fault of the catalogue
-- may be tried on which target of a project, and on what evidence.
--   Capabilities.Contracts   statuses, evidence grades and the two validators; Grades and Coverage
--                            hold their theorems
--   Capabilities.Catalog     the 32 faults and `get_fault_spec`
--   Capabilities.Core        what `_assess_target` reads off the profile, the node and the cluster
--   Capabilities.Assessment  `_assess_target` and `assess_core_capabilities`; Grounds, Records,
--                            Sound and Once hold the theorems
-- Shared: Prelude (tests, lists, integers, text), Value (JSON values and Python's view of them),
-- Result (exceptions as values), Exec (actions on a state that may raise), Table (files by name).
--
-- Correspondence. A Python dictionary is a Dict, which keeps the order of its keys; `d.get(k)` is
-- get, which is null on a missing key, and `d[k]` is item, which raises. A function that may raise
-- returns a Result, and a method of a stateful class is an Exec: it returns the state it leaves also
-- where it raises. Loops are recursion on the list they run over, so no fuel is used.
--
-- Parameters. The canonical JSON text with SHA-256 is a Hasher, of which only a nonempty digest is
-- assumed. Clock and random identities are an Ambient, providers are arbitrary functions of the
-- plan and the lease, the blueprint compiler is an argument of `validate_plan`, the
-- identifiers of the catalogues are arguments of `validate_catalog_coverage`, `urlsplit` one of
-- `rebind_local_tunnel`, `validate_v3` and the texts that `datetime.fromisoformat` reads ones of the
-- transaction contracts, the Dify probe and the transaction factory ones of the registry; the
-- validation of the policy's state, the stop rule and the scores, which
-- other files of tools/ compute, are a Scoring.
--
-- Bounds. JSON numbers are integers; floating-point numbers do not occur in these documents. The
-- regular expressions, `lower` and the sorting of texts are written for ASCII letters. Whether
-- a lease's file can be created, and whether a write of it succeeds, are functions of its name and
-- of the value; a write that fails leaves the file as it was (a rename is atomic). A process that is
-- stopped between two writes is not modelled. A file may be damaged, and another process may hold a
-- lock; a blocking lock is one that is obtained in the end. What is written is read back with its
-- keys in the same order, where the program's writer sorts them. Keys of a document
-- are texts. What the reader of JSON does with a byte order mark is not modelled.
--
-- Not modelled: the providers themselves (kubectl and minikube processes), the orchestration
-- engine, the oracles' HTTP sessions and replays, the publication of approved batches, the policy's
-- scores and budgets, the root-cause tools, the command line.
pub mod Prelude
pub mod Result
pub mod Exec
pub mod Table
pub mod Value
pub mod Isolation
pub mod Feedback
pub mod Oracles
pub mod Policy
pub mod Recovery
pub mod Capabilities

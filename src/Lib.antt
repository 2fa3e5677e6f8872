-- ===== src/Lib.antt =====
-- A model of the decision logic in the Rust backend of CodeNexus, an online judge for schools,
-- with proofs about it. Paths are from the repository's root.
--
-- The backend is a set of crates around PostgreSQL and Redis. Every request to the API carries
-- claims that name a role; guards and the access rules of each domain decide on the role and on the
-- tenant. Features are switched by flags that a separate gateway resolves. Submissions go through
-- Redis streams to judge workers, which run them and report to the API through a circuit breaker.
--
-- Which file models what:
--   Prelude          Boolean tests, lists, texts as lists of code points, integers, decimals.
--   Shared           backend/shared: Shared/Role is models/role.rs (Role, is_higher_or_equal,
--                    from_str, as_str), Shared/Permission is models/permission.rs, Shared/Claims
--                    the struct of models/auth.rs. Shared/Role/Order and Shared/Role/Names hold
--                    the facts on the order and on the names.
--   Infra            backend/api-infra: Infra/Rbac is rbac.rs, with the hierarchy of permissions
--                    in Infra/Rbac/Hierarchy; Infra/Authz is middleware/authz.rs, its four guards
--                    as functions from the claims of a request to an outcome, and
--                    Infra/Authz/Guards what they let through. Infra/GatewayClient is
--                    feature_gateway/client.rs, with the HTTP client as an interface; Keys is on its
--                    cache keys, Fresh on the age of its answers. Infra/WebSocket is
--                    websocket/server.rs; Tally and Limits are on the counts of connections, Topics and
--                    Mirrored on the two indexes of topics, Reached on the states that come about.
--   Problems         backend/domain-problems: Problems/Access is access.rs and problem_access.rs;
--                    Problems/Access/Spec states the rules, Problems/Access/Isolation what they
--                    give between tenants.
--   Gateway          backend/feature-gateway: Gateway/Models is models.rs, Gateway/Key the cache
--                    keys and Gateway/Service the methods of service.rs, Gateway/Routes the
--                    handlers of routes.rs. Gateway/Store is the interface of the two tables that
--                    the SQL statements address; its laws are what PostgreSQL documents of the
--                    statements. Service/Coherence says what the cache may hold, Database and
--                    Precedence what is answered, Writes, Visibility and Unscoped what a write does
--                    to later answers.
--   Imex             backend/domain-imex: Imex/Security is security.rs, Imex/Security/Checked what
--                    passes its checks.
--   Judge            backend/judge-worker: Judge/CircuitBreaker is circuit_breaker.rs; Machine is
--                    a machine of three modes, Behaviour is on runs of one kind of call,
--                    Probe the steps of concurrent threads in allow_request. Judge/Queue has the
--                    messages of queue/mod.rs and the interface of the Redis server with the
--                    documented laws of XREADGROUP, Judge/Queue/Consumer is queue/consumer.rs; its
--                    children say what one read gives (Delivered), how a call can succeed
--                    (Served), and hold what is said of dispatched messages (Accounted) and of
--                    the order between the streams (Priority). Judge/Processor is processor/service.rs: its children
--                    Output (normalize_output), Execute (execute_program and
--                    build_runtime_command) and Compile (save_source_code and compile_code) hold
--                    definitions, with the machine around them as an interface in Execute;
--                    Verdict, Report, Score and Memory say what is reported.
--                    Judge/Queue/Recovery is queue/recovery.rs, with XPENDING and XCLAIM as
--                    parameters; Cursor is on the identifiers of entries, Scan on the pages.
--                    Judge/Worker is main.rs with queue/dlq.rs: Send reports a result, Dlq stores it,
--                    Acknowledge ends a message, Task composes them for one message, Loop consumes
--                    and retries. Requests says which logs of requests are safe, the children named
--                    Settled and Probes are on those logs and on the breakers.
--   Submissions      backend/domain-submissions: Submissions/Status has the texts of service.rs,
--                    Submissions/Results update_judge_result_transactional, with the two tables as an
--                    interface, and Submissions/Routes the callback of routes.rs. Results/Written
--                    and its child Stays are on what callbacks leave, Routes/Secret and
--                    Routes/Guarded on who may call.
--   Control          backend/monitor-server/src/control.rs with routes/control.rs; Control/Consumers is
--                    control_signal.rs of the API and of the LLM worker, which read a view of
--                    their own in the values of Redis. Control/Sound is on how
--                    signals become active, Consumers/Outlived on cleared ones.
--   Migration        backend/migration-tool: Migration/IdMap is id_map.rs, with the table as an
--                    interface; Stable is on repeated calls, Coherence on memory against the
--                    table. Migration/Mapper is mapper.rs; Slugs is on its slugs, Fits on what the
--                    submission service makes of its values.
--   Tests            runs of the definitions, and each theorem at a concrete input.
--
-- How state and time are modelled. A method that changes state takes the state and returns it. The
-- clock of the breaker is an argument of each call, in nanoseconds. The failure counter wraps at
-- 2^64 as `usize` does, and theorems that count name the bound. An `i32` of the judge is its 32 bits,
-- a number below 2^32. Each statement to a database takes an element of a list of
-- faults that the state carries: in the gateway it is answered, fails without an effect, or takes
-- effect and is reported as failed; elsewhere it is answered or fails without an effect. Loops of the source are structural recursion over lists, or over the attempts that are
-- left. The decimal digits of a number use fuel, one more than the number. The scan of pending
-- messages uses fuel, one page for each 100 messages and one more, and its theorem says that this is
-- enough. The endless loop of a worker is modelled for any number of turns. A worker keeps a log of
-- the requests that it makes, and its breakers wrap their counters as above.
--
-- Not modelled: everything that only sends SQL, HTTP or system calls (the routes of most domains,
-- the sandbox, the collectors of the monitor, the language model client), the logging, the
-- frontend. The tasks of a worker run one after another, and a method of the WebSocket server is one
-- step; the heartbeat and the names of topics are left out. Serialization by serde and the Redis client are outside.
pub mod Prelude
pub mod Shared
pub mod Submissions
pub mod Control
pub mod Infra
pub mod Problems
pub mod Gateway
pub mod Imex
pub mod Judge
pub mod Migration
mod Tests

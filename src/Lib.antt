-- ===== src/Lib.antt =====
-- FutureBI answers questions about a sales database. A question is planned and worked off by an
-- orchestrator, a graph of nodes that share one state; its queries are written in a small DSL, narrowed
-- by the security guard to what the caller may see, compiled to SQL, and run through a cache. Logins are
-- throttled and give sessions; requests come with a token or a session. A tool agent answers questions by
-- calling tools, with a memory of the conversation.
--
-- How the parts meet: `run_agent_inner` (core/orchestrator/agent.py) builds the graph of
-- core/orchestrator/graph.py over the nodes of core/orchestrator/nodes.py and runs it on an `AgentState`.
-- The query node calls core/retrieval, which applies the guard (security/guard.py) and the compiler
-- (compiler/sql_compiler.py). Both read the schema of semantic/dsl_schema.py and the catalog of
-- semantic/catalog.py. The web layer holds sessions (auth/session.py) and a login throttle
-- (auth/ratelimit.py over persistence/kvstore.py), and runs long queries as background tasks (web/tasks.py).
--
-- Modules, and the code that each models:
--   Base            lists, dictionaries, texts and Boolean tests that the others share
--   Orchestrator.State   core/orchestrator/state.py; State.Trace is about the pruning of tool calls
--   Orchestrator.Graph   core/orchestrator/graph.py, class StateGraph; Graph.Run is about its runs
--   Orchestrator.Nodes   core/orchestrator/nodes.py: Clarify, RunStep and Query, Analyze, Critic
--   Orchestrator.Agent   core/orchestrator/agent.py: the graph (Topology) and its runs (Runs)
--   Exec.QueryCache      exec/query_cache.py, class QueryCache
--   Semantic.Schema      semantic/dsl_schema.py; Semantic.Catalog: semantic/catalog.py
--   Security             security/policy.py, guard.py and scope.py, how the last two agree, and
--                        policy_loader.py
--   Compiler             compiler/sql_compiler.py: Dates, Quote, Fields, From, and a module for each form
--                        of query (Plain, TopN, FillGaps, Comparison) under the entry in Sql
--   Exec.Pool            exec/pool.py, class ReadOnlyConnectionPool
--   Exec.SqlText         exec/guards.py: comments and literals; Exec.Guards: the checks and execute_sql
--   Exec.Audit           exec/audit.py, the audit that execute_sql asks before a run
--   Auth.RateLimit       auth/ratelimit.py; Auth.Session: auth/session.py, its two stores
--   Auth.Identity        auth/identity.py; Auth.Tokens: auth/tokens.py; Auth.Gateway: auth/gateway.py
--   Persistence          persistence/kvstore.py, class SqliteKVStore
--   Agent.Memory         agent/memory.py, class SessionStore; Memory.Filters: normalize_filters and
--                        strip_rls_filters; Memory.Inherit: resolve_context
--   Agent.ToolAgent      agent/tool_agent.py, class ToolAgent; ToolAgent.Rounds is its method run, and
--                        ToolAgent.Planner the class DeterministicPlanner
--   Tools                tools/base.py and tools/registry.py
--   Sandbox.AstGuard     core/sandbox/ast_guard.py
--   Retrieval            core/retrieval/tools.py: the gateway, the guard and the compiler in their order;
--                        Retrieval.Guardrails: core/retrieval/guardrails.py
--   Web.Tasks            web/tasks.py, class TaskManager
--   Tests                runs on concrete inputs
--
-- State is passed explicitly: an operation takes the state and gives the next one with its answer, and
-- what may raise gives a result type (`Result`, `Outcome`, `Verdict`, `Compiled`). A block under a lock is
-- one step. That is a whole operation of the cache, of the throttle and of the stores, except `update` of
-- agent/memory.py, which has two blocks and then an unlocked write to the database: it is modelled as their
-- composition, and its two blocks are also definitions of their own (`existing`, `claim`). `submit` of
-- web/tasks.py has two blocks, `cleanup` and `enter`, which are two steps of the relation that the tasks'
-- threads follow. Time is a number, in milliseconds for the throttle, and is handed to the operations
-- that read the clock. JSON values of the orchestrator are a type J, floats of the compiler a type F; dates are
-- years, months and days, and every instant of the compiler is a midnight. A Python dictionary is a
-- list of entries in the order of insertion. The threads of the connection pool take one atomic action at
-- a time, in any order that a schedule names. Python code is a tree of the nodes that the check looks at.
--
-- The graph's loop has fuel for each iteration that its guard leaves and one more, and the rounds of the
-- tool agent have one more than the budget has steps. That is enough because each iteration counts one up to
-- the guard's limit, and each round that goes on has made a step of the budget.
--
-- Parameters, for code that is not in the repository, does I/O or is left out here: the language model,
-- the database and the sandbox with the helpers around them (the record `Services`), the planner and the synthesizer (the
-- theorems that need it ask that they leave the iteration count alone; they may raise), Python's float
-- printing (`Floats`), and the ids of sessions; hashing, HMAC, Base64, JSON and cookies (`Hashing`,
-- `Codec`, `Settings`), the regular expressions and the parser of SQL (`Scanner`), the database with its
-- watchdog and the audit (`Engine`), pydantic's model of a query (`Contract`), Python's parser, the
-- readers of Chinese questions (`Reader`, `Router`), and the planners, the reflectors and the synthesizers
-- of the tool agent (`Parts`).
--
-- Not modelled: the text heuristics of the planners and the router, the reports of the synthesizers, the
-- web handlers around the tasks, the providers, the run of scripts in a sandbox, the loader of catalogs,
-- logging, and everything in JavaScript.
pub mod Base
pub mod Exec
pub mod Orchestrator
pub mod Semantic
pub mod Security
pub mod Compiler
pub mod Auth
pub mod Retrieval
pub mod Web
pub mod Tests
pub mod Sandbox
pub mod Persistence
pub mod Agent
pub mod Tools

-- ===== src/Lib.antt =====
-- The Python programs of sndv-kv, and the core of its Go server.
--
-- sndv-kv is a key-value store: a server in Go with an HTTP interface, a client in Python, and
-- Python programs that start a server and measure or test it over that interface. Everything in
-- Python is an action over the trace of the calls that left the process (HTTP exchanges, reads of
-- the clock, sleeps, programs run, files written); it returns a value or raises an exception, and
-- keeps the trace. What a server answers, what the clock shows, what a program does and what
-- `json.loads` returns are a `Host`, any function of the trace and the request, so that a theorem
-- holds for every server and every network.
--
-- Files:
--   Prelude, Prelude/*         library names passed on, Boolean tests, lists by native numbers, texts
--                              as lists of character codes, decimal numerals, the integers
--   Python                     JSON values, requests, answers, exceptions, events, the host
--   Python/Actions             actions that may raise: `try`, `urlopen`, `requests`, clock, `sleep`
--   Python/Floats, Linear      floats as an abstract type with the operations used, and their orders
--   Python/Sort                `list.sort` as insertion sort
--   Python/Loops, Counts       `for i in range(n)`, rules for loops, what a trace has counted
--   Python/Texts, Files        methods of `str`; files and directories that are written
--   Python/Running             what one command started and another one has to end
--   Python/Processes           `subprocess`, `finally`, what a trace says of a started process
--   Client                     clients/python/sndv.py: `SndvClient` with each of its methods
--   Client/Outcomes, BaseUrl   what the methods return or raise by the reply; how a server is named
--   Bench, Bench/Poll          the requests that the programs share; the loop that waits for a server
--   Bench/Keys                 the keys of batches
--   Orchestrator               bench_orchestrator.py: `benchmark_single`, `benchmark_batch`,
--                              `benchmark_stress`, `wait_for_server`, a `*_round` for a loop's body
--   Orchestrator/Single, Batch, Stress   what these count and report
--   Orchestrator/Monitoring, Monitoring/Totals   `run_benchmarks_with_monitoring`; what it sends
--   Orchestrator/Cases         the test cases: `run_test_case` with its container, `run_all`
--   Orchestrator/Cases/Container, Works, Shared   the container's end; a host on which everything can
--                              be run; the results that `run_all` leaves
--   Orchestrator/Resources, Resources/Figures   `collect_resource_metrics`; the memory that it reads
--   Orchestrator/Disk, Disk/Shares   `collect_disk_metrics`; what its numbers say of one another
--   Orchestrator/Setup, Setup/Durability   `setup`, the configuration files; those that are mounted
--   Orchestrator/Artifacts, Artifacts/Cleanup   `build_image`, `extract_build_artifacts`; what is left
--   Orchestrator/Report, Report/Best   `generate_comprehensive_report` as data; what it shows
--   Orchestrator/Main, Main/Exit   `main`; how it ends
--   Integration                scripts/docker_integration.py: `IntegrationTest`, its results as a
--                              record, its tests and benchmarks
--   Integration/Main           `run_all`, its `try` block as steps that an exception ends, the exit
--   Integration/Token          `get_token_from_logs`, over a log that may be missing or not readable
--   Integration/Runs, Exit, Benchmarks   how a run ends; its exit status; what its tests count
--   QuickBench                 quick_bench.py: `BenchmarkMetrics`, both requests, both benchmarks
--   QuickBench/Order, Totals   the order of completion; what is counted
--   QuickBench/Process, Process/Lifetime   quick_bench.py: the server process, `main`; its end
--   Profile                    profile_server.py: the server process, the load, the profiles, `main`
--   Profile/Load, Lifetime     what the load test sends; the end of the process
--   Server/Router              internal/api/http_router.go: `handleRequest`, `routePath`, `checkAuth`
--                              and the handlers, over an interface to the rest of the server
--   Server/Router/Access, Answers, Health   what passes the router; what it answers to the client's
--                              requests; the integration test against it
--   Server/Cache               internal/cache/lru_cache.go
--   Server/Cache/Validity, Reads   what its operations keep; what a read sees after them
--   Server/Wal                 internal/storage/write_ahead_log.go: the bytes of `WriteBatch`, `Replay`
--   Server/Wal/Recovery, Torn  what a replay gives, of a whole log and of one that was cut off
--   Server/Memory, Memory/Lookups   internal/storage/memory_table.go; what a read and a dump see
--   Server/Bloom, Bloom/Members   internal/storage/bloom_filter.go; it has no false negatives
--   Server/Sstable             internal/storage/sorted_string_table.go: the bytes of a table, its
--                              index, the search, the reader
--   Server/Sstable/Search, Reading   what the search finds; what the reader gives
--   Server/Store               the state of the server: `findAndServe` of internal/api/http_router.go,
--                              `applyToMemTable` and `rotateMemTable` of internal/agents/ingestion.go,
--                              `processFlush` of internal/agents/flush_agent.go
--   Server/Store/Sorting, Views, Steps   the slice that is flushed; the searches; what the steps keep
--   Server/Store/Flushing, Tables   when every table that waits is written; the tables of level 0
--   Server/Store/Contents, Reads, Refinement   the map that a state stands for; what reads show; the
--                              server against a map
--   Server/Ingestion, Ingestion/Restart   `processBatch` of internal/agents/ingestion.go with the log,
--                              `recoverWal` of cmd/server/main.go; what a restart gives back
--   Server/Api                 `SubmitIngestionRequest` and `SubmitBatchIngestion` of
--                              internal/agents/ingestion.go; the server as what the router reaches
--   Server/Api/Network, Background   the Python client on the server, with the rounds of both agents
--                              between the requests; what these rounds keep
--   Server/Api/Plain, Exchanges, Calls   texts that need no quoting; one request; what the calls return
--   Server/Api/Queue           `runShard` and `drainSingleQueue` of internal/agents/ingestion.go
--   Server/Api/Batches, Refused   the groups of a batch in any order; what clients are told when the
--                              log refuses a batch
--   Server/Compaction          internal/agents/compaction_agent.go: the merge of tables, the check
--   Server/Compaction/Order, Queues, Sources   the order of keys; what container/heap promises; what
--                              readers have left
--   Server/Compaction/Steps, Kept, Filling, Merging, Results   what the loops of the merge keep, and
--                              give
--   Server/Compaction/Files, Reads, State   the merge of files; what searches find after a compaction
--   Server/Compaction/Flushed  the tables of the flush agent are as the compaction needs them
--   Server/Rotation            the log files: `rotateWal` of internal/agents/ingestion.go, and
--                              `rotateFrozenWal` of internal/agents/flush_agent.go
--   Server/Rotation/Logged, Runs   what the files hold of the memory tables
--   Tests, Tests/*             a concrete host and server, and the theorems at concrete inputs
--
-- Conventions. A body of a request stands for its JSON text, since `json.dumps` is not modelled.
-- Floats are abstract: a theorem that compares them takes the laws of the order as a hypothesis.
-- `int(n * 0.95)` is `n * 95 / 100` rounded down, which it is for every length up to 2000000.
-- `requests` returns a response for every status, and `urllib` raises for a status outside 200 to
-- 299. `urlopen` may also lose a connection, or refuse a request before it is sent, with
-- exceptions that `_request` does not catch. The keyword `timeout` of a request is part of the
-- host: a request that times out is one without an answer. Printed lines are left out.
--
-- Fuel. The loops that wait for a server take fuel for their rounds. The programs sleep half a
-- second in each round, so that any number of sleeps after which the timeout has passed, and one
-- more round, is enough. The replay of a log and the merge of tables take the number of bytes as
-- fuel: an entry has 17 bytes at least.
--
-- Not modelled: the text of the files that are written (json.dumps, rounding, Markdown), though
-- the configuration files keep their JSON value; and of the server how single requests of a shard
-- mix with its batches, logging, configuration and metrics, and files of tables that cannot be
-- read or written. The thread pool of quick_bench.py is a parameter that returns the results of
-- its jobs in some order. The server's locks make each operation of the cache, of the log and of
-- a memory table one step; in Server/Store each write, read and flush is one step, and so is each
-- compaction, though the code holds a lock only for parts of them. FNV-1a, CRC-32 and
-- container/heap are parameters, and so is what lies between the client and the router in
-- Server/Api: the parsing of requests and JSON.
pub mod Prelude
pub mod Python
pub mod Client
pub mod Bench
pub mod Orchestrator
pub mod Integration
pub mod QuickBench
pub mod Profile
pub mod Server
mod Tests

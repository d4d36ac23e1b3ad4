-- ===== src/Lib.antt =====
-- AegisFlow, a server that judges login attempts: what its parts do, and what holds of them.
--
-- A connection's bytes go through the length-prefixed codec into a session, which hands out one
-- request at a time; a request is validated into an attempt; the risk service counts the attempt in
-- the feature store, looks it up in the blacklist, lets the policy chain decide and may propose the
-- address for the blacklist; proposals wait in the candidate queue for the maintenance worker. The
-- requests are tasks of a bounded worker pool, whose completions come back to the connection's loop
-- through its mailbox; timers end up in another mailbox of the loop.
--
--   Prelude            numbers, lists, byte strings and machine words that the files share
--   Domain/Login       include/aegisflow/domain/login.hpp
--   Domain/IpAddress   src/domain/ip_address.cpp; `inet_pton` and `inet_ntop` are parameters
--   Risk/Policy        src/risk/login_policy_chain.cpp: `LoginPolicyChain::evaluate` is `evaluate`
--   Risk/Mutation      src/risk/blacklist_mutation.cpp: the factories
--   Risk/Blacklist     src/risk/blacklist_manager.cpp and blacklist_snapshot.cpp: `publish`, `matches`
--   Risk/Generator     src/risk/blacklist_candidate_generator.cpp: `generate`
--   Feature/SlidingCounter   include/aegisflow/feature/sliding_counter.hpp
--   Feature/SlidingDistinct  include/aegisflow/feature/sliding_distinct.hpp
--   Feature/Store      src/feature/feature_store.cpp; `std::hash` is a parameter
--   App/CandidateQueue        src/app/blacklist_candidate_queue.cpp
--   App/LoginRequestValidator src/app/login_request_validator.cpp
--   App/RiskService           src/app/risk_service.cpp: `RiskService::evaluate`
--   App/Maintenance    src/app/blacklist_maintenance.cpp: Refresh has what
--                      `refreshSnapshotAndExpiry` publishes, Pending is `flushOnePendingBatch`,
--                      Candidates the flush and the drain of the candidate queue; what the storage
--                      answers is an argument
--   Net/Protocol       include/aegisflow/net/protocol_contract.hpp
--   Net/Codec          src/net/length_prefixed_codec.cpp: `consume`, and its reading byte by byte
--   Net/Token          include/aegisflow/net/connection_token.hpp
--   Net/Session        src/net/session.cpp: State, Input and Output hold the operations, the other
--                      files the invariant and what calls do to the stream
--   Net/Limits         include/aegisflow/net/limits.hpp: `validLimits`
--   Net/Completion     include/aegisflow/net/completion_router.hpp, and `BusinessTask` of
--                      src/net/completion_router.cpp; the handler is a parameter
--   Net/Mailbox        src/net/loop_mailbox.cpp: Completions, Connections and Timeouts are the three
--                      mailboxes, Wake their event descriptor
--   Net/Router         `CompletionRouter` of src/net/completion_router.cpp
--   Timer/Types, Timer/State  include/aegisflow/timer/timer_core.hpp
--   Timer/Core         src/timer/timer_core.cpp; its children have the invariants and the runs
--   Runtime/Ring       the bounded queue that the worker pool and the mailboxes spell out
--   Runtime/WorkerPool src/runtime/bounded_worker_pool.cpp: the sections that hold the lock; Threads
--                      has the steps of the threads
--   Benchmark/FrameCodec   src/benchmark/login_frame_codec.cpp; the encoding of the messages is a
--                      parameter
--
-- A C++ object is a record of its members; a method is a function from the object to the object and
-- its result; an exception of a constructor or a null result is `none`. Byte strings are lists of
-- numbers; `std::size_t`, `std::uint64_t` and `std::uint32_t` wrap around by `% 2 ^ w` where the
-- source can. Hash maps are association lists, a priority queue is a list in order. Methods that
-- hold one mutex throughout are one step; a method that takes the lock several times is a function
-- for each section, and a sequence of calls or a step relation puts the sections of all threads in the
-- order in which they get the lock. The clocks are arguments; a time of the timers is a number of
-- ticks.
--
-- The loops of the codec and of the session run on fuel: as much as the input has bytes, since every
-- round takes a byte. `Net/Codec/Refinement` and `Net/Session/Reads` show that it is enough: the
-- loops end where the reading byte by byte ends. `run_ready` of the timers, the cycle that no other
-- thread gets in between, runs on the length of the heap and one more, since every turn takes a node;
-- Timer/Core/Ready is about such a cycle, with Timer/Core/Fired on what keeps a timer active.
--
-- Not modelled: memory resources and failures of allocation, epoll and sockets, the timer's thread, the
-- rounds of the maintenance worker as a whole, the clients of Redis and MySQL, configuration files and
-- logs.
pub mod Prelude
pub mod Domain
pub mod Risk
pub mod Feature
pub mod App
pub mod Net
pub mod Timer
pub mod Runtime
pub mod Benchmark

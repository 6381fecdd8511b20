-- ===== src/Lib.antt =====
-- Models of the Python programs of the assets system library and proofs about them: the cache
-- framework under engineering/storage/mini-impl/cache, data structures under
-- language/python/standard-library, the database laboratories under
-- systems-engineering/database-systems/impl, the distributed systems laboratories under
-- systems-engineering/distributed-systems/impl, the runtime, patterns and decorators under
-- language/python, the pod simulator under systems-engineering/cloud-native/impl and
-- performance laboratories under systems-engineering/performance-engineering/impl.
--
-- Each part of the program is a module whose file holds the data and the operations, and whose
-- child modules hold the proofs and the tests. An object is a record, a method a function that
-- returns the new record, an exception the value none.
-- * Prelude passes on the shared names: tests on native numbers, lists and sets of numbers, and
--   dicts in insertion order.
-- * Cache is engineering/storage/mini-impl/cache/cache_framework.py: Cache.State is the data,
--   Cache.Eviction is _evict, _remove_entry and _cleanup, and Cache.Methods the methods of
--   Cache, where clear_all is clear. The lock makes a method one step, a call reads the clock
--   once, and the listeners are the list of events they were given. The timer is not modelled.
--   Cache.MultiLevel is MultiLevelCache, whose second level is a parameter, with get_or_none,
--   stats and the wrapper of cached.
-- * Raft is systems-engineering/distributed-systems/impl/raft_lab/raft_sim.py: a method of Node
--   that calls other nodes is a function of the dict of nodes, become_candidate and
--   become_leader are of one node, and elect is the election of the demo.
-- * Mvcc is systems-engineering/database-systems/impl/mvcc_lab/mvcc.py: MVCCStore is MvccStore,
--   and read_rc, read_rr, write, begin_trx and commit_trx keep their names.
-- * Wal is systems-engineering/database-systems/impl/wal_lab/wal_simulator.py, and Wal.Reimpl
--   is systems-engineering/database-systems/impl/wal_lab/re_impl/wal.py. Both keep the names of
--   the methods.
-- * Replication is
--   systems-engineering/database-systems/impl/replication_lab/replication_sim.py.
-- * Crdt is systems-engineering/distributed-systems/impl/consistency_lab/crdt.py: merge is that
--   of GCounter, merge_register that of LWWRegister.
-- * Dlock is systems-engineering/distributed-systems/impl/dlock_lab: Dlock.FencingToken is
--   fencing_token.py, where the field stored is data, Dlock.RedisLock is redis_lock.py, where
--   watch_dog is one round of its loop, and Dlock.Redlock is redlock_sim.py, with proofs in
--   Dlock.Quorum, and in Dlock.Interleaved with the calls of other clients in between.
--   zk_lock.py works on files and is not modelled.
-- * DataStructures.BinarySearch and DataStructures.MinStack are binary_search.py and
--   min_stack.py of language/python/standard-library/data_structures, over natural numbers. The
--   loops of the searches get the length of the sequence as fuel, which is enough since every
--   round shortens the interval by at least one.
-- * EngineeringPatterns.UnitOfWork is
--   language/python/engineering-patterns/engineering_patterns/unit_of_work.py: the pending
--   closures are the type Action, and the body of uow_context is the list of its registrations.
-- * MiniFramework.MiniCacheTtl is
--   language/python/mini-runtime/mini_framework/mini_cache_ttl.py: cleanup is one round of
--   _cleanup_loop.
-- * PodSim is systems-engineering/cloud-native/impl/pod_lab/pod_sim.py.
-- * Capacity is
--   systems-engineering/performance-engineering/impl/capacity_lab/capacity_simulator.py: round
--   is a round of the loop of run_mm1_simulation, advance its first statements, and arrive and
--   depart its two branches. heapq.heappop and random.expovariate are parameters. The fuel of
--   loop is the number of rounds: for a duration and z draws of 0 ticks twice their sum and
--   three are enough, since an arrival comes a tick after the one before or uses up such a
--   draw, and each arrival causes at most two rounds, its own and that of the departure.
-- * LatencyBudget is
--   systems-engineering/performance-engineering/impl/latency_budget_lab/budget_calculator.py:
--   totals is the loop of calculate_budget and warning is the end of print_report.
-- * MiniFramework.MiniTaskQueue is
--   language/python/mini-runtime/mini_framework/mini_task_queue.py: step is one step of a
--   thread or of a caller, and the queue keeps the count that queue.Queue has for join.
-- * EngineeringPatterns.TokenBucket is
--   language/python/engineering-patterns/engineering_patterns/token_bucket_rate_limiter.py and
--   EngineeringPatterns.RetryPolicy retry_with_backoff.py beside it. async_allow gets its
--   rounds, with the readings of the clock and the calls of others while it sleeps, and has not
--   returned when they are used up. The delays and jitters of RetryPolicy and Decorators.Retry
--   are not negative: on a negative one the first raises a ValueError and the second does not
--   sleep, which is not modelled.
-- * Decorators is language/python/core-abstractions/decorators: Decorators.Retry is retry.py,
--   Decorators.Memoize is memoize.py, where hashable, sorted and make_key are _hashable, sorted
--   and _make_key and Python's hash, repr, type and equality are parameters, and
--   Decorators.Once is once.py.
-- * MiniFramework.MiniScheduler is mini_scheduler.py beside it: begin_round and end_round are
--   the two parts of a round of _run, before and after its await.
-- * MiniFramework.Router is mini_router.py beside it: split is _split, match_routes is _match
--   and add_middleware is use. EngineeringPatterns.MiddlewareChain is
--   language/python/engineering-patterns/engineering_patterns/middleware_chain.py, whose loop
--   wraps the handlers of the router too.
-- * MiniFramework.MiniPubSub is mini_pubsub.py beside it: put_all is the loop of publish.
--   EngineeringPatterns.EventBus is event_bus.py beside unit_of_work.py: unsubscribe is the
--   function that subscribe returns.
-- * EngineeringPatterns.Repository is repository.py beside it: the interface is a record of
--   operations, and its laws are the record IsRepository.
-- * ObjectModel is dedup.py and group_by.py of language/python/runtime-model/object_model.
--
-- The parts do not call one another, except that Decorators.Retry is compared with RetryPolicy,
-- and the router and the middleware chain share a loop. They share the model of dicts and sets,
-- and the lemmas on them.
--
-- Numbers that the code only counts up (ids, LSNs, clocks) are natural numbers. Keys are any
-- type with a decidable equality and stored values any type. Prints, logging, sleeps and the
-- demo functions are not modelled, except that the tests run the demos' calls.
pub mod Prelude
pub mod Cache
pub mod Raft
pub mod Mvcc
pub mod Wal
pub mod Replication
pub mod Crdt
pub mod Dlock
pub mod DataStructures
pub mod EngineeringPatterns
pub mod MiniFramework
pub mod PodSim
pub mod Capacity
pub mod LatencyBudget
pub mod Decorators
pub mod ObjectModel

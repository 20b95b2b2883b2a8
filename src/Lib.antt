-- ===== src/Lib.antt =====
-- Verification of celeries, a Celery client for Node.
--
-- The program. A `Client` makes tasks. A `Task` packs the arguments of a call into a message and
-- publishes it by a broker that its failover strategy gives; a `Result` gets the reply by a backend.
-- The brokers and backends for AMQP and Redis share their connections by a `ResourcePool` and keep
-- the replies that tasks wait for in a `PromiseMap`; both stand on `PromiseQueue` and `List`. Brokers
-- and backends are made from URIs, which `parseUri` and a `QueryParser` take apart.
--
-- The files.
--   Base               shared names: equality tests, numbers, lists, dictionaries, sets, results, text
--   Errors             src/errors.ts
--   Containers/
--     LinkedList       src/containers/list.ts: `List` over a store of nodes
--     Fifo             what `PromiseQueue` and `ResourcePool` use of `List`, as an interface
--     PromiseQueue     src/containers/promise_queue.ts
--     PromiseMap       src/containers/promise_map.ts
--     ResourcePool     src/containers/resource_pool.ts
--   Utility            src/utility.ts: the functions on strings; its child Events has the promises of
--                      events and timers
--   Uri                src/uri.ts; its child QueryString has `parseQueries` and `addQuery`
--   QueryParser        src/query_parser.ts
--   Amqp/
--     Uri              src/amqp/uri.ts
--     Channel          the calls of an amqplib channel, and the loop that writes to its buffer
--     Broker           src/amqp/broker.ts
--     Backend          src/amqp/backend.ts; its child Ending has `end`
--   Redis/
--     Uri              src/redis/uri/: the queries in common, and the TCP, socket and sentinel URIs
--     Options          src/redis/options.ts
--     Connection       the commands on an ioredis connection
--     Broker           src/redis/broker.ts
--     Backend          src/redis/backend.ts; its children Uuid and Ending have the channels' expression
--                      and `end`
--   Messages           src/messages.ts
--   Packer             src/packer/: compressors, encoders, serializers, `Packer` and the factory
--   Task               src/task.ts
--   Client             src/client.ts
--   ResultBackend      src/result_backend.ts
--   NullBackend        src/null_backend.ts
--   Result             src/result.ts
--   Factories          src/factories.ts
-- A module has the definitions; its children have what is proved of them, and Tests has runs and
-- concrete cases.
--
-- Names are those of the source in snake case. A JavaScript promise is a number, with its state in
-- a store; what the event loop runs later is an operation of its own (`finish_job`, `fire`,
-- `arrive`, `created`, `resume`), and a step relation lets it come in any order. An `async` method
-- of a broker or a backend is cut at its `await`s: `start_put` asks the pool for a channel, `put`
-- goes on when it has come up to the `await` of `assertQueue`, and `put_asserted` when this has
-- been answered; likewise `publish` and `publish_confirmed`, `get` and `get_answered`, `end` and
-- `end_cancelled`; a `put` that waits for room goes on as `put_drained`. The callback of `use` has
-- settled where `use_resource` runs. The calls made on a channel or a connection stand in a log,
-- the last one first. A promise that only time settles is a `Settling`: its outcome with the time
-- in milliseconds, or none. A JavaScript `Map` is an association list with its keys in insertion
-- order, a `Set` a list in insertion order, and a string a list of code units.
--
-- Bounds and fuel. Sizes are unbounded naturals, as the program's counters stay far below 2^53;
-- `parseInteger` rounds to the nearest double, on fuel for every exponent that a double has, and a
-- number beyond the largest one, which JavaScript takes for infinity, stays a number. `invokeWhile`
-- runs on one step more than the queue is long, and the iterator of `List` on the size of the list;
-- `tryPublish` runs on any fuel above the number of brokers that throw. Each is shown to be enough.
-- `write_until` runs on the number of "drain" events that come, and waits for another when they are
-- used up, as the code does.
--
-- Parameters. `URL.parse`, `decodeURIComponent`, the conversions of text to numbers, zlib,
-- `Buffer`, `JSON`, js-yaml, uuid, the brokers' `publish` and reading a file are arguments of what
-- uses them, and so are the servers behind amqplib and ioredis, which answer a call from the log of
-- its channel (where a method is cut at the answer, the answer itself may be the argument), and
-- cosmokit's `Time.day`. The delay that Node gives a timer is in `timer_delay`, and which of two
-- promises settles first within a millisecond is an argument of `race`. A worker that reads a task
-- is described by what it does with the text of the body, the library that inflates it being a
-- parameter.
--
-- Not modelled: the client libraries amqplib and ioredis behind their calls, events of a connection
-- that is lost, src/config.ts and the entry points, which declare types and pass names on, and the
-- scripts and tests.
pub mod Amqp
pub mod Base
pub mod Client
pub mod Containers
pub mod Errors
pub mod Factories
pub mod Messages
pub mod NullBackend
pub mod Packer
pub mod QueryParser
pub mod Redis
pub mod Result
pub mod ResultBackend
pub mod Task
pub mod Uri
pub mod Utility

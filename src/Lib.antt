-- ===== src/Lib.antt =====
-- The scheduling core of cxsom, a simulator that computes the instances of variables, ordered by
-- timelines and dates, from rules called updates.
--
-- A client declares patterns of updates. The job centre (cxsom/src/cxsomJobs.hpp) realizes them as
-- updates of one date (cxsom/src/cxsomJobRule.hpp) and puts these in the time step of that date
-- (cxsom/src/cxsomTimeStep.hpp). A time step hands out tasks; a task executes an update
-- (cxsom/src/cxsomUpdate.hpp), which reads instances, may write its result, and reports to its time
-- step. An instance that becomes ready is written in the file of its variable
-- (cxsom/src/cxsomVariable.hpp), a circular buffer that keeps the last dates.
--
-- - Prelude: shared names; Boolean tests, lists, sets, maps, and the words of 64 bits.
-- - Symbol: `symbol::Variable`, `TimeStep`, `Instance`, their equality, and `belongs`.
-- - Data: `Availability`, `FileAvailability`. Data/Instance: `Instance::set` and `sync` in memory;
--   Data/Instance/Locks: how they and `get` wait for each other, as a step relation.
-- - Data/File: the class `File`, with its header, its slots, and `realize`; Data/File/Access has
--   `write` (with a function for each of its branches), `read` and `sync`; Data/File/Uint has
--   `write_uint` and `read_uint`. Data/File/History is the abstract view of a file: how many dates are
--   kept, the first date beyond all writings, and the values; its children compare the two.
-- - Data/Variable: the class `Variable`, whose cache is in Data/Variable/Cache; Data/Variable/Keeping and
--   Bound say what the cache keeps, Data/Variable/Life is the life of a variable with the instances that are
--   held, as a step relation. Data/Center: the class `Center` of the variables; Data/Center/Lasting is its
--   step relation.
-- - Update: `update::Base` with its arguments and its result; Update/Exec: `operator()`. The virtual
--   functions of an update are the interface `Hooks`, the files behind the instances are `Files`.
-- - TimeStep: the queues of `timestep::Instance`, the unbound variables, `update_status`,
--   `operator+=`, `clear_blocking_info` and `notify_unblock`; TimeStep/Run: `get_jobs`, `report`, and the
--   task that executes an update. Updates are named by numbers and reached through the interface
--   `Updates`. TimeStep/Run/Life is the life of a time step as a step relation: what its owner and
--   its tasks do, in any order.
-- - Engine: the updates of Update as an instance of the interface `Updates` of TimeStep.
-- - Job: the patterns and `at`; Job/Center: `check_and_get`, `clean_timesteps`,
--   `unprotected_realize_patterns`. The time steps are the interface `Steps`, which Job/Filling fills
--   with those of TimeStep; Job/Queuing says which updates wait in a time step. Job/Notify has
--   `integrity_notify_blocked` and `notify_done`, over time steps named by their addresses;
--   Job/Notify/Clearing has `clear_blocking_info`; Job/Flush has `get_one`, the end of
--   a job and `clear`, and Job/Flush/Life the workers as a step relation; Job/Adding has `type_checking` and
--   `operator+=`.
-- - Types (cxsom/src/cxsomData.hpp): the types, their names, predicates and sizes; Types/Decimal prints
--   numbers, Types/Grammar is the parser of types over a stream that may fail, and Types/Values has the
--   values, as lists of doubles.
-- - Operation (cxsom/src/cxsomOperation.hpp): Operation/Typing has `check_types_...`, Operation/Table the
--   factory and the type checker with what fills them; Operation/Typed is an inductive relation of the
--   typings, Operation/Adding joins them to the job centre. Operation/Compute has the updates `Copy`,
--   `MinMax`, `Average`, `Match` and `ValueAt`, over the interface `Doubles`; Operation/Compute/Running says what an execution
--   of Update does with an operation.
-- - Rules (cxsom/src/cxsomRuleDefs.hpp and cxsom/src/cxsom-rules.hpp): the data and updates of a program;
--   Rules/Context is the class `context`, with the checks and `<<` and `<=`; Rules/Renaming is `rename`.
--   Rules/Sound is what a program does, as a step relation.
-- - Sked (sked/src/skedQueue.hpp and sked/src/skedXRSW.hpp): `xrsw::queue`, with the phases of its threads
--   and of the main thread; Sked/Life is its step relation, Sked/Locking is about `exec_mutex`.
--
-- How the state is written. A `std::map` is an association list, a `std::set` a list without
-- repetition, a queue a list in order. Members that are changed are records that are passed on; a
-- callback that a method is given (`notify_done`) is a part of its result. A `std::size_t` is a
-- number, and the wrap-around of its operators is written out where `File` computes with it (`add64`,
-- `sub64`), as is that of `unsigned int` in the dates of patterns. An exception is a value: `FileError`, or
-- `none` for `negative_time`. A position in a file counts slots, whose length in bytes is fixed by
-- the type of the variable. The loops are over lists and numbers of slots, so that no fuel is
-- needed, but for `notify_done`, whose fuel is the depth of its calls; the rank of a time step among those
-- that wait for each other is enough. A shared pointer is an address; its `use_count` is counted from what
-- holds it. Each method runs alone, as under the mutexes of the source, which are not modelled, but for
-- Sked and Data/Instance/Locks, whose steps are those that the mutexes allow.
--
-- What is said of files supposes that a file has less than 2^63 slots, and that nothing is written at the date
-- `no_time` (2^64 - 1), with which the source marks an empty file.
--
-- Not modelled: input and output (streams, sockets, logging, monitoring, drawing), the
-- formulas of the updates that are not named above (random values, merging, learning, argmax),
-- and the builder of maps. A double is a value of a parameter type, with `<`, `==` and the arithmetic as
-- parameters. In sked the wait of the main thread may end without a notification; the waits of the
-- threads may in the runs of Sked/Life that are `spurious`.
pub mod Prelude
pub mod Symbol
pub mod Data
pub mod Update
pub mod Job
pub mod Operation
pub mod Types
pub mod Rules
pub mod Sked
pub mod TimeStep
pub mod Engine

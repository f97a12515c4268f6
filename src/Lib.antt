-- ===== src/Lib.antt =====
-- f1_telemetry: a simulated race whose threads exchange telemetry and race control events.
--
-- The program. A generator thread advances twenty drivers and puts a telemetry frame for each into a
-- single-producer, single-consumer ring (src/concurrency/spsc_queue.h). A consumer thread takes the
-- frames and claims fastest laps in the shared race state (src/common/race_state.h). Each tick the
-- main program publishes the standings on the leaderboard (src/common/leaderboard.h), and lets a pool
-- run the track limits monitor (src/race_control/track_limits.cpp) and the weather
-- (src/race_control/weather.cpp), which push events to a multi-producer, single-consumer queue
-- (src/concurrency/mpsc_queue.h); the penalty enforcer (src/race_control/penalty_enforcer.cpp) drains
-- it. src/common/types.h and src/common/season_data.h hold the data.
--
-- The files.
--   Prelude      names, lists, Boolean tests, signed integers and results that all parts share
--   Float        an interface to `float`: its operations, and the laws of its order, which the
--                theorems that need them take as a hypothesis; Float/Fixed is a value of both
--   Concurrency  Spsc is the ring, its functions as the methods, with Spsc/Steps for `push` and `pop`
--                interleaved access by access, and Fifo the bounded queue that it stands for; Mpsc is
--                the linked queue over a memory of nodes, with Mpsc/Steps for its interleavings;
--                ThreadPool is the pool, its steps interleaved
--   Common       Text for strings and `char[4]`, Types for types.h, SeasonData, RaceState with
--                RaceState/Race for interleaved claims, and Leaderboard
--   RaceControl  Penalty, Weather and TrackLimits over the list of the queue's events, and Channel for
--                the same over a queue that keeps a contract, which Channel/Linked fills with Mpsc
--   Simulation   TelemetryGenerator, with TelemetryGenerator/Standings for the positions, the tick and
--                the loop, and LapTimeConsumer over the ring
--   Main         the callback of src/main.cpp after each tick; Main/Published and Main/Contract for the
--                standings that it publishes, Main/Whole for the threads of the program while the race
--                runs, step by step, and Main/Display for the main thread's loop and what it prints
--   In each, a child Tests runs the code on small inputs.
--
-- How the code corresponds. A class is a record of its fields, and a method a function from the
-- record to the record and its result; a method that holds a lock for its whole body is one step. In
-- Spsc/Steps, Mpsc/Steps, ThreadPool and RaceState/Race a thread's place in a method is a
-- constructor that holds its locals, each access to a shared field, or each region under a lock, is
-- one step, and all interleavings of steps are followed. The interleavings are sequentially
-- consistent, but for the indices of the ring in Spsc/Steps: a thread may read an older value of the
-- other's index, as the acquire loads of the source may. A worker of the pool sleeps until it is
-- notified, or wakes up spuriously. An exception of the callback of main keeps the program's state. In
-- Main/Whole a step is the start of a tick, a round of its loop over the drivers, the ranking at its
-- end, the first part of the callback, a pop, the processing of an event, the check of a driver, an
-- update of the weather, a turn of the consumer of the frames, or the main thread's end of the race;
-- the events pushed and processed and the frames that got in and were taken are kept beside.
-- The event queue of RaceControl is the list of its events, in the order that the linked queue keeps.
-- What a stream makes of a `float` with a given precision is a parameter of Main/Display.
-- The random generators are a parameter that gives a value and the next generator, and the clock is a
-- parameter or an argument. Thread ids are numbers.
--
-- Bounds and fuel. The ring's indices are `size_t`: additions and subtractions are taken modulo 2^64,
-- for a capacity of 2^k with k at most 63. An `atomic<int>` of the enforcer is its 32 bits. Lap
-- numbers and positions are natural numbers, since the program counts them up from one. Mpsc.drain
-- and LapTimeConsumer.drain have fuel, one round for each item that the queue holds and one more. The
-- compare-exchange loop of RaceState counts its spurious failures instead. Channel.pop_batch has fuel like
-- Mpsc.drain. The main thread's loop has fuel for 122 turns: each sleeps 500 ms, and the timeout is 60 s.
--
-- Not modelled: the benchmarks, the tests and the build files; the starting and joining of threads,
-- except for the pool and as the order of steps. In Main/Whole a push to the ring or a pop is one step
-- and reads the newest index, and a push of an event is one step. Cache-line alignment and the cost of
-- the orderings have no meaning in the model.
pub mod Prelude
pub mod Float
pub mod Concurrency
pub mod Common
pub mod RaceControl
pub mod Simulation
pub mod Main

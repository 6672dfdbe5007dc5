-- ===== src/Lib.antt =====
-- Models of the location HAL in gps/: the entry of the clients, the sessions of tracking, batching and
-- geofences, what drives the data connection for assisted GPS, the heap below the timers, and the
-- subscriptions to data items of the framework.
--
-- The program. A client is a `LocationAPI` (gps/location/LocationAPI.cpp), which adds itself to the
-- adapters that it has callbacks of and passes its requests on to them. It creates fences, which
-- `GeofenceAdapter` (gps/geofence/GeofenceAdapter.cpp) hands to the modem through a LocApi and keeps in
-- two maps; it asks for batches of locations, where `BatchingAdapter` (gps/batching/BatchingAdapter.cpp)
-- lets all trips share one session of the engine; and it is tracked, where `GnssAdapter`
-- (gps/gnss/GnssAdapter.cpp) lets all time based sessions share one. The modem asks for a data
-- connection to an assistance server; `AgpsManager` and its state machines (gps/gnss/Agps.cpp) gather
-- such requests, ask the Android framework for the connection and tell the requesters how it went.
-- `LocTimer` keeps its timers in a `LocHeap` (gps/utils/LocHeap.cpp). The adapters run on one message
-- queue, so each message is a step that nothing interrupts. `SystemStatusOsObserver`
-- (gps/core/SystemStatusOsObserver.cpp) subscribes to data items of the framework for its clients, with
-- two maps of gps/utils/LocUnorderedSetMap.h. `LocationAPIClientBase`
-- (gps/location/LocationAPIClientBase.cpp) gives a client ids of its own for the sessions of a
-- `LocationAPI` and matches the responses to the client's requests. The parts share the process but no
-- state but the lists of clients.
--
-- Files.
--   Base: Boolean tests, lists and `std::map` over the native numbers. Core: the errors, the lock of the
--     engine, session ids and keys, and arithmetic on 32 bits, which the adapters share.
--   Location/Types, Location/Api: the data and operations of gps/location/LocationAPI.cpp.
--     Location/Clients, Location/Removal: to which adapters a client is added, and when it is deleted.
--   Client/BiDict, Client/Fences: the dictionary of ids and sessions in
--     gps/location/LocationAPIClientBase.h, and the commands on geofences of
--     gps/location/LocationAPIClientBase.cpp. Client/Mutual, Client/Answers, Client/Mixups: the two maps,
--     what a client is told, and where sessions and options are mixed up. Client/Queues, Client/Sessions,
--     Client/Replies: `RequestQueue`, the commands on tracking and batching, and the responses to them.
--     Client/Sound, Client/Lifecycle, Client/Rounds: the dictionary of sessions, and a command with its
--     response. Client/Crossed, Client/Forgotten: responses in another order, and options that are lost.
--   Batching/Types, Batching/Sessions, Batching/Trips, Batching/Messages: the data of
--     gps/batching/BatchingAdapter.h and the methods of gps/batching/BatchingAdapter.cpp; a lambda that
--     handles an answer is a function of its own, named for what has happened. Batching/Minimum,
--     Batching/Completed, Batching/Progress, Batching/Leftovers: what the engine is asked for, the
--     completed trips, what a restart does to the distances, and where the two maps come apart.
--   Gnss/Types, Gnss/Sessions, Gnss/Multiplex, Gnss/Commands: the tracking sessions of
--     gps/gnss/GnssAdapter.h and gps/gnss/GnssAdapter.cpp. Gnss/Order: the order of the keys. Gnss/Served,
--     Gnss/Bounds, Gnss/Serving, Gnss/Tracking: the engine against the sessions that share it. Gnss/Stale:
--     the flag of the highest rate. Gnss/Blacklist: the blacklist of satellites as masks and as a list;
--     Gnss/MaskBits, Gnss/RoundTrip: the bits of a mask, and the way there and back.
--   Agps/Types, Agps/Subscribers, Agps/Machine, Agps/Events, Agps/Manager: the data of gps/gnss/Agps.h and
--     the methods of gps/gnss/Agps.cpp, each under its own name (`processAgpsEvent` is
--     `process_agps_event`). A `std::list` of subscribers is a list; `mCurrentSubscriber` is a pointer that
--     is NULL, dangles, points outside the list or to one of its entries; a method gives nothing where it
--     would follow NULL or a freed entry. Callbacks are a list of signals in their order.
--   Agps/Distinct, Agps/Loops, Agps/Outcome, Agps/Invariant, Agps/Service, Agps/Connection, Agps/Endings:
--     one event at one machine. Agps/History, Agps/Runs, Agps/Requests: histories of commands.
--   Heap/Node: `LocHeapNode` and `LocHeap`, over a record of the operations that a client implements and
--     the laws of a rank. Heap/Order, Heap/Operations, Heap/Removal: the heap's operations against counts.
--     Heap/Queue: the heap against a priority queue of a bag.
--   Timer/Types, Timer/Service: the data and operations of gps/utils/LocTimer.cpp over that heap, as steps:
--     a call of a client, a message (`MsgTimerPush::proc` is `proc_push`), a call of the polling thread.
--     `mTimer` is a map from timers to delegates; a step gives nothing where it would follow a freed one.
--     Timer/Life, Timer/Handling, Timer/Messages: which delegates are allocated. Timer/Popping,
--     Timer/Stops, Timer/Expiry, Timer/Arming: what leaves the heap, and what the kernel is told.
--     Timer/Serving, Timer/Early: all steps in any order, and an expiration that comes too late.
--   Geofence/Types, Geofence/Items, Geofence/Commands, Geofence/Sessions: the data of
--     gps/geofence/GeofenceAdapter.h and the methods of gps/geofence/GeofenceAdapter.cpp.
--     Geofence/Linked, Geofence/Results: the two maps. Geofence/Responses, Geofence/Refusals,
--     Geofence/Departure: what clients are told, and what departure, restart and breach do.
--   Observer/SetMap, Observer/Subscriptions: `LocUnorderedSetMap` and `SystemStatusOsObserver`.
--     Observer/Entries, Observer/Keys: the map's operations as membership. Observer/Mirror,
--     Observer/Framework, Observer/Changes, Observer/Switches: the observer's two maps, what the framework
--     is told, the update of a subscription, the counts of `turnOn`.
--   Agps/Examples, Heap/Examples, Geofence/Examples, Observer/Examples, Batching/Examples, Gnss/Examples,
--     Location/Examples, Timer/Examples,
--     Client/Examples, Client/SessionExamples: tests at concrete inputs.
--
-- Bounds and fuel. Distances of trips are added and subtracted on 32 bits. On fuel are `drain` and
-- `expire_loop`, which pop a heap, with its size for fuel, one unit for each pop, and `mask_loop`, which
-- shifts a mask of 64 bits to the right, with 64. A session id is computed modulo 2 ^ 32. `mSize` is
-- unbounded: a heap has fewer than 2 ^ 31 nodes. Handles, masks and doubles are their bit patterns,
-- where the code only copies and compares them. The counts of `turnOn` are unbounded. Timers are ordered
-- by their times, as `ranks` does with its 32 bits for times below 2 ^ 31 seconds.
--
-- Environment. What the LocApi answers, and the hardware ids that it gives, are arguments. It answers
-- the requests of a command one after the other, in their order, as its call queue does. The callbacks
-- of the AGPS part do not call the manager back, since they post messages. In batching and tracking a
-- request to the LocApi is an output that carries what its answer needs, and the answer is a step of its
-- own, at any later time. In batching, what the code reads of a status that it has freed, and of options
-- that nothing has initialised, are arguments. In the location API, which libraries are there is an
-- argument. The session that the API gives to `LocationAPIClientBase` is an argument of the command. A timer's callback that starts or stops a timer does so as a step of its own, and addresses
-- of delegates are not used again. The kernel may fire at any time. The calls of tracking to the engine
-- hub, to DGNSS and to NMEA are outputs without effect.
--
-- Not modelled: logging, memory allocation that fails, commands with NULL arrays, the event masks of the
-- clients, the messages of geofences that wait for the engine, the cache update and the backhaul
-- requests of the observer, the reports of locations, the reports and the configuration of the GNSS
-- adapter, the control client and the callbacks that a client base only passes on, the HIDL bindings,
-- sockets, threads, and the descriptors of the kernel's timers.
mod Base
pub mod Core
pub mod Agps
pub mod Heap
pub mod Geofence
pub mod Observer
pub mod Batching
pub mod Location
pub mod Timer
pub mod Gnss
pub mod Client

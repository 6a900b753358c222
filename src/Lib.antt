-- ===== src/Lib.antt =====
-- iqlogger, a log collector, reads logs from inputs (GELF over UDP and TCP, JSON over TCP, journald,
-- files that grow), turns their records into messages, sends these to outputs (GELF over TCP, a log),
-- and serves its counters over HTTP. This library models the parts that carry a message through the
-- program. Paths are from the root of the repository.
--
-- The parts, and how they interact. An input's threads put records into its queue. A thread of the
-- input server takes them out, makes messages of them, and puts these into the main queue (or the
-- queue of the script engine). A thread of the output server takes the messages out and gives each
-- bulk to every output, which makes records of them for its own queue. The threads of an output empty
-- this queue. All queues are one class. The HTTP server stands beside this.
--
--   Common           lists, bytes, tables, signed numbers, decimal numbers, results of code that throws
--   Queue            src/MessageQueue.h: the bounded queue between threads. A call of `enqueue_bulk`
--                    is several steps, and a run is any sequence of the steps of all threads
--                    (Bounded: how full it gets; Accounts: where every item is)
--   Tcp              src/inputs/gelf/tcp/Server.h and src/inputs/json/tcp/Server.h: a connection that
--                    splits its stream at zero bytes (Frames)
--   Udp              src/inputs/gelf/udp: Chunk is the constructor of `GelfChunk`, Session is
--                    `udp_session::process`, Reassembly is the thread of `GelfInput` that puts
--                    chunks together and drops messages that are too old (Window, Steps, Entries,
--                    Order: when a message is complete; Expiry: the time limit), Delivery joins them,
--                    and Others and Traffic put other datagrams and the checks in between
--   Tail             src/inputs/tail/TailMonitor.cpp: Reader is `PointersTableInternalRecord`; Lines
--                    and Matches are the two ways of `processBuffer`; Blocks, Growth and Truncation
--                    are about a file that is read in blocks, grows, and gets shorter; Positions is
--                    src/inputs/tail/SavePositionServer.cpp (Restart: what it knows after a restart);
--                    Monitor is `TailMonitor` (Total, Names, Rotation: the events, and the readers
--                    under their names); Message is src/formats/tail/TailMessage.h
--   Watches          src/inputs/tail: where the events of Monitor come from. Buffer is
--                    `InotifyServer::end_read` (Kernel: the bytes of the kernel), Descriptors is
--                    `WatchDescriptorsMap` (Unique, Refinement), Server is `InotifyServer` and
--                    `Watch::notify` (Extends: what stays; Depth: where the recursion ends; Shared: two
--                    paths in one directory)
--   Journal          src/inputs/journal/JournalReader.cpp (Entries: what is read)
--   Gelf             src/formats/gelf: Json has what rapidjson, C strings and `std::stoi` give,
--                    Reading is the constructor of `gelf`, Writing is `dump`, Message is `decompress`
--                    and the constructor of `GelfMessage`, Setting is `setField` (Valid, Checked,
--                    RoundTrip: what is made, and what is written and read again)
--   Pipeline         `importMessages` of src/inputs/Input.h and src/outputs/Output.h with the threads
--                    of src/InputServer.cpp and src/OutputServer.cpp (Import, Export; Relay: from one
--                    instance to another)
--   Output           src/outputs/gelf/tcp/GelfOutput.cpp: the thread that fills a buffer with a bulk,
--                    and writes it again after an error (Attempts, Delivery, Server); Formats is
--                    src/outputs/gelf/Output.cpp: the GELF records of messages of the journal, of
--                    files, and of JSON (Journal, Json)
--   Processor        src/processor/ProcessorMachine.cpp: the thread between the inputs and the main
--                    queue that runs the scripts
--   Config           src/config: reading the configuration of an input and of an output (Source), and
--                    what src/inputs/tail/TailInput.cpp takes from it (TailSettings)
--   Metrics          `MetricsTableInternal` of src/metrics/MetricsController.h
--   Lifecycle        src/core/TaskInterface.h (Order), and the stop of the outputs in
--                    src/OutputServer.cpp and src/outputs/log/LogOutput.cpp (Outputs)
--   Http             src/stats/http: Request and Parser are `RequestParser` and what it fills, Reply
--                    is `Reply`, Handler is `RequestHandler`, Connection is `Connection`
--   Telegraf         src/stats/telegraf/Exporter.cpp: the text of the metrics (Leaves)
--   Tests            runs of the definitions, and the theorems at concrete inputs
--
-- How code became definitions. A class is a record of its fields; what it hands to another part is
-- kept in a field, in the order of the calls. A handler is a function from state to state, with an
-- answer where the code has one. A byte is a number below 256, `std::string` a list of bytes. Sizes
-- and counters that the code can overflow are reduced modulo 2 ^ 64; a version number of HTTP, an
-- `int`, has an outcome of its own for the overflow, which C++ leaves undefined. What throws gives a
-- `Result`: an `Exception` of the program, which its handlers catch, or one of the standard library,
-- which most of its threads do not. Messages to the log are left out, and so are the names of the
-- inputs that records carry.
--
-- Fuel and bounds. The reading loop of the tail reader runs on the number of bytes that were added,
-- the loop of a connection on the size of its buffer, the digits of a number on the number: each
-- round takes one at least, so the fuel is enough. The limits of the program itself are kept: 128
-- chunks of a message, blocks of 4 MB of a file, bulks of 10,000 messages, 32 KB of a write, 4,096
-- bytes of a datagram.
--
-- Given from outside: the queue of concurrentqueue as its size, with estimates of it that come from
-- outside; `async_read_until` of Boost.Asio as a function with what it documents; the answers of
-- the network to writes as a list of attempts; the matches of a regular expression; the stream over
-- a file; rapidjson, nlohmann's JSON and the decompressors; the property tree of Boost; a double as
-- a type with the operations that are used; the JSON text of the counters; the file system, with
-- what of it throws, and inotify's descriptors; the results of the journal's calls; what the script
-- engine makes of a record. Adding a watch runs on fuel that bounds the depth of the directories
-- and links; the loop over inotify's events on the number of the bytes, of which each round takes
-- sixteen.
--
-- Not modelled: the script engine itself (src/processor/v8, an interface of V8), the sockets of the
-- export to telegraf, the values that the kernel reports, reading the file of the configuration and the
-- checks of scripts, the dummy input, logging, the program's arguments and signals. Starting threads
-- and the distribution of an event loop over threads are the runtime's.
pub mod Common
pub mod Queue
pub mod Http
pub mod Tcp
pub mod Udp
pub mod Gelf
pub mod Pipeline
pub mod Tail
pub mod Output
pub mod Watches
pub mod Lifecycle
pub mod Journal
pub mod Config
pub mod Metrics
pub mod Processor
pub mod Telegraf
mod Tests

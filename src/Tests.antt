-- ===== src/Tests.antt =====
-- Runs of the definitions at concrete inputs, and the theorems at inputs that meet their
-- hypotheses.
mod HttpParser
mod UdpInput
mod TailReader
mod MessageQueue
mod HttpServer
mod TcpInput
mod GelfOutput
mod GelfFormat
mod Forwarding
mod SavedPositions
mod TailMonitor
mod DirectoryWatches
mod WatchDepth
mod OutputFormats
mod Lifecycles
mod JournalReader
mod Configuration
mod Statistics
mod TelegrafText

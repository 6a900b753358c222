-- ===== src/Watches.antt =====
-- The watches of directories: src/inputs/tail/InotifyServer.cpp, Watch.cpp, WatchDescriptorsMap.cpp.
pub mod Descriptors
pub mod Buffer
pub mod Server

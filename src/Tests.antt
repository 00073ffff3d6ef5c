-- ===== src/Tests.antt =====
-- Runs of the model at concrete inputs, and each theorem at an input that meets its hypotheses.
mod HashMaps
mod Sha256Runs
mod Pools
mod MemoryPools
mod HashSets
mod Md5Runs
mod Sockets
mod Systems
mod Loggers
mod Queries

-- ===== src/Tests.antt =====
-- The theorems at concrete inputs, and runs of the definitions.
mod Codec
mod Queue
mod Locks
mod Timers
mod Calls
mod Clients
mod Marshals
mod Sockets
mod Pools
mod Polls
mod Texts
mod Served
mod Merges

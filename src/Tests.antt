-- ===== src/Tests.antt =====
-- Runs at concrete inputs, and the theorems at concrete inputs.
mod Machine
mod Streams
mod Blocks
mod Listings
mod Paths
mod Servers
mod Downloads
mod Files
mod Clients
mod Sockets
mod Trees
mod Main
mod Sessions

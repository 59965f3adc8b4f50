-- ===== src/Tests.antt =====
-- Small runs of the code, each at concrete values.
mod World
mod Pools
mod Servers
mod Requests
mod Sequels
mod Parts
mod Configs
mod Users
mod Wire
mod Clients
mod Threads
mod Connections
mod Logins
mod Hosts
mod Shutdowns
mod Windows

-- ===== src/Tests.antt =====
-- Concrete inputs (Tests/Data.antt), and what the theorems say of them.
mod Data
mod Routes
mod Wire
mod Agent
mod Server
mod Clients
mod Hosts
mod Machines
mod Proxies
mod Apps
mod Bridges
mod Loads

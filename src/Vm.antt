-- ===== src/Vm.antt =====
-- crates/vm: the agent inside the VM. Its configuration in Vm/Config.antt, and its server in
-- Vm/Server.antt with the theorems below it.
pub mod Config
pub mod Server
pub mod Locate
pub mod Load
pub mod Agent

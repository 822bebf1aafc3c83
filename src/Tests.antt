-- ===== src/Tests.antt =====
-- The theorems at concrete inputs.
mod Fixtures
mod Ascii
mod Export
mod Registry
mod Server
mod Registrar
mod App
mod Sdk
mod Cli
mod Precompiles
mod Application
mod Clients
mod Wire
mod WireGenesis

-- ===== src/Sourcehub.antt =====
-- The module x/sourcehub: its keeper, its message server, its messages and its genesis state.
pub mod Keys
pub mod State
pub mod Roles
pub mod Crypto
pub mod Keeper
pub mod Packets
pub mod Registration
pub mod Messages
pub mod Server
pub mod Genesis
pub mod System

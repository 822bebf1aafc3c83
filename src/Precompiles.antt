-- ===== src/Precompiles.antt =====
-- The two precompiled contracts of app/precompiles, which call the keeper of x/sourcehub.
pub mod Evm
pub mod Entities
pub mod Sdl
pub mod Views

-- ===== src/Wire.antt =====
-- shinzonetwork/sourcehub/v1: how the module's messages are written to bytes and read back. The
-- methods are those that `ProtoMethods` of each message returns.
pub mod Bits
pub mod Reader
pub mod Writer
pub mod Loop
pub mod Params
pub mod RegisterIca
pub mod RegisterPolicy
pub mod RegisterObjects
pub mod StreamAccess
pub mod Genesis
pub mod Responses
pub mod Ends
pub mod Reflection

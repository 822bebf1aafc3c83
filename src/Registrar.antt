-- ===== src/Registrar.antt =====
-- The registrar: acpapi/registrar.go, pkg/registrar, pkg/validators, pkg/utils and the clients of
-- pkg/sourcehub, which turn an HTTP request into one signed transaction on SourceHub.
pub mod Client
pub mod Funding
pub mod Parents
pub mod Feeds
pub mod Service

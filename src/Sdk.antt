-- ===== src/Sdk.antt =====
-- The Go SDK of the chain, sdk/txbuilder.go, signer.go, client.go and request_stream_access.go.
pub mod GasPrice
pub mod Builder
pub mod Connection
pub mod Requests

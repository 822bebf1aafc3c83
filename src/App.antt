-- ===== src/App.antt =====
-- The chain's application: the routing of transactions (app/ante), the filter of messages
-- (app/decorators), the gas costs that it changes and the contracts that it adds (app/activators.go,
-- app/precompiles.go).
pub mod Filter
pub mod Ante
pub mod Activators
pub mod Export
pub mod Upgrades
pub mod Statics
pub mod Accounts
pub mod Lifecycle
pub mod Orders

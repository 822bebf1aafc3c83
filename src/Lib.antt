-- ===== src/Lib.antt =====
-- Verification of shinzohub, the Cosmos SDK chain of Shinzo that registers indexers, hosts and views and
-- controls access to them on another chain, SourceHub, through an interchain account.
--
-- The parts and how they interact. The module x/sourcehub keeps two indexes between addresses and the
-- DIDs of nodes, and sends packets to SourceHub, whose access-control policy they change. It is reached
-- by the messages of x/sourcehub/types, which the commands of x/sourcehub/client/cli and the SDK in sdk
-- send, and by two EVM precompiles in app/precompiles. Transactions pass the handlers of app/ante and
-- app/decorators. Beside the chain, the registrar (acpapi, pkg) turns HTTP requests into transactions
-- that it signs and sends to SourceHub itself.
--
-- Which file models which part:
-- - Prelude: Boolean tests and lists over native numbers, texts as lists of bytes, Go's results, and a
--   state monad with errors in which what was written before an error stays written.
-- - Acp: the messages of SourceHub's access-control library, as constructors.
-- - Sourcehub/Keys, State, Keeper, Roles, Crypto, Packets, Registration: x/sourcehub/keeper (keeper.go,
--   ica.go, policy.go, params.go, role.go, validation.go, derivation.go) and types/keys.go. The store is
--   a function from keys to values, a transaction's environment is the record `Env`, and the calls that
--   the interchain-accounts controller has accepted are recorded in the state. `register_entity` is
--   RegisterEntity, `register_object` is RegisterObject.
-- - Sourcehub/Messages, Server, Genesis: the messages' ValidateBasic, the files msg_server_*.go, and
--   genesis.go with the JSON of x/sourcehub/module.go. `handle` routes a message to its handler.
-- - Sourcehub/System: the module as a transition system, from a genesis by any calls in any environment,
--   and a registry of claims beside it (Refinement).
-- - Wire: the size, marshal and unmarshal methods of shinzonetwork/sourcehub/v1 (tx.pulsar.go,
--   genesis.pulsar.go, params.pulsar.go). A `Buffer` is filled from its end and a `Cursor` stands in the
--   input; Writer, Reader and Loop hold what the messages have in common, and a file of its own what each
--   adds. An unmarshal that fails gives no message. Reflection, and Reflect beside a message, are its
--   switches on the name of a field, as a table of fields.
-- - Cli: x/sourcehub/client/cli/tx.go.
-- - Precompiles/Evm, Entities, Sdl, Views: app/precompiles. `World` is the module's state with the EVM's
--   storage and logs; Sdl is the regular expression of the view registry.
-- - Registrar/Client, Parents, Feeds, Service: pkg/sourcehub, acpapi/registrar.go, pkg/validators,
--   pkg/utils/jsonHandler.go and pkg/registrar/service.go. `Net` records the transactions that SourceHub
--   took in.
-- - Registrar/Funding: the rest of pkg/sourcehub/acpGoClient.go, FundAccount and the making of a client.
-- - App/Filter, Ante, Activators: app/decorators, app/ante and app/activators.go.
-- - App/Export: app/export.go. A run is the list of the calls of keepers that it makes, with their heights;
--   what a keeper answers is any function of the calls before. Distribution and Staking are the parts of
--   prepForZeroHeightGenesis, which stops at a panic and at log.Fatal.
-- - App/Upgrades: app/upgrades.go and app/upgrades. App/Statics: app/precompiles.go, with the table of
--   contracts as a function. App/Accounts, Lifecycle, Orders: maccPerms, BlockedAddresses, FinalizeBlock,
--   InitChainer, setAnteHandler, DefaultGenesis and the orders of the modules, of app/app.go.
-- - Daemon: the export command, the probe and the root command of cmd/shinzohubd; cmd/registrar.
-- - Sdk/GasPrice, Builder, Requests, Connection: sdk/txbuilder.go, request_stream_access.go, client.go and
--   signer.go. `Open` has the connections that are open.
-- - Tests: a concrete chain, and the theorems at concrete inputs.
--
-- Code of other repositories is a parameter: the signature schemes (`Crypto`), the controller keeper
-- and the codecs (`Env`), the EVM's library (`EvmLib`), view bundles (`BundleLib`), SourceHub's SDK
-- (`Hub`, `FundLib`), the chain's libraries for the SDK (`SdkLib`, `NetLib`, `KeyringLib`), the
-- keepers of other modules (`Keepers`, `BlockEnv`, `UpgradeEnv`), and the application's libraries
-- (`StaticLib`, `AccountLib`, `GenesisLib`, `AppLib`), the numbers, Skip and dispatch of the protobuf
-- runtime (`Numbers`, `Skip`, `NestedCalls`), and the folding and trimming of texts in Go's standard
-- library (`Strings`). A theorem that asks something of them has it as
-- a hypothesis; otherwise they may fail as they like.
--
-- Bounds. A `uint64` or `int32` keeps its modulus where the code can wrap: the packet's timeout, the
-- gas cost, the resource of a request, the height of an export. A block's height that is only compared
-- or set to 0 is its value. A size of bytes is an `int`, a number on the wire has the modulus of its
-- type. Decimal numbers are printed with the number plus one as fuel, which is more than it has
-- digits; the loop of unmarshal has one more than the input is long, and every round takes a byte. All
-- other loops are structural.
--
-- Not modelled: the reflection of the responses, of MsgRegisterShinzoObjects and of GenesisState, the
-- second copy of all messages (x/sourcehub/types/*.pb.go), the rest of NewChainApp and the accessors
-- of app/app.go, which wire library modules together, the lists of library commands in cmd, the
-- recovery of a precompile from a gas meter that panics, and tests.
pub mod Prelude
pub mod Acp
pub mod Sourcehub
pub mod Wire
pub mod Cli
pub mod Precompiles
pub mod Registrar
pub mod App
pub mod Sdk
pub mod Daemon
mod Tests

-- ===== src/App/Activators.antt =====
-- The changed gas costs of app/activators.go and the contracts that app/precompiles.go adds to the
-- EVM's.
use shinzohub.Prelude.{ℕ, ◌*◌, ◌%◌, ◌^◌, Option, none, some, ◌==◌, if◌then◌else◌, ◌≡◌, arith}

-- An opcode of `vm.JumpTable`; the table is its constant gas costs, which are `uint64`.
abbrev pub op_create : ℕ
op_create = 240

abbrev pub op_call : ℕ
op_call = 241

abbrev pub op_create2 : ℕ
op_create2 = 245

abbrev pub op_sstore : ℕ
op_sstore = 85

abbrev pub JumpTable : Type 0
JumpTable = ℕ → ℕ

abbrev pub multiplier : ℕ
multiplier = 10

abbrev pub sstore_constant_gas : ℕ
sstore_constant_gas = 500

-- `jt[op].SetConstantGas(gas)`
unfoldable pub set_constant_gas : ℕ → ℕ → JumpTable → JumpTable
set_constant_gas op gas jt o = if o == op then gas else jt o

unfoldable pub enable0000 : JumpTable → JumpTable
unfolding set_constant_gas
enable0000 jt =
    let first = set_constant_gas op_create ((jt op_create * multiplier) % 2 ^ 64) jt in
    set_constant_gas op_create2 ((first op_create2 * multiplier) % 2 ^ 64) first

unfoldable pub enable0001 : JumpTable → JumpTable
unfolding set_constant_gas
enable0001 jt = set_constant_gas op_call ((jt op_call * multiplier) % 2 ^ 64) jt

unfoldable pub enable0002 : JumpTable → JumpTable
unfolding set_constant_gas
enable0002 jt = set_constant_gas op_sstore sstore_constant_gas jt

unfoldable pub activate : ℕ → Option (JumpTable → JumpTable)
activate n =
    if n == 0
    then some enable0000
    else if n == 1
    then some enable0001
    else if n == 2
    then some enable0002
    else none

-- Two different activators may be enabled in either order: every opcode has the same cost after both.
activators_commute :
    (jt : JumpTable) (o : ℕ)
    → (enable0000 (enable0001 jt) o ≡ enable0001 (enable0000 jt) o)
      × (enable0000 (enable0002 jt) o ≡ enable0002 (enable0000 jt) o)
      × (enable0001 (enable0002 jt) o ≡ enable0002 (enable0001 jt) o)
unfolding enable0000 enable0001 enable0002 set_constant_gas
activators_commute jt o = (ground arith, ground arith, ground arith)

-- ===== src/Sourcehub/Genesis/Json.antt =====
-- The genesis of the module as JSON: `DefaultGenesis`, `ValidateGenesis`, `InitGenesis` and
-- `ExportGenesis` of x/sourcehub/module.go. The JSON codec is code of another repository, and `Json` what it
-- writes, `json.RawMessage`.
use shinzohub.Prelude.{
  inl, inr, none, some, Result, ok, err, and_then, map_err, ◌≡◌, Option-cases, map_err-ok,
}
use shinzohub.Sourcehub.State.{State, LibError}
use shinzohub.Sourcehub.Genesis.{GenesisState, default_genesis, init_genesis, export_genesis}
use shinzohub.Sourcehub.Genesis.RoundTrip.{export_genesis-init_genesis}

pub record GenesisCodec (Json : Type 0) : Type 0 where
  pub marshal_json : GenesisState → Result LibError Json
  pub unmarshal_json : Json → Result LibError GenesisState

-- What is marshalled is read back.
abbrev pub IsFaithful : {Json : Type 0} → GenesisCodec Json → Type 0
IsFaithful {Json} cdc =
    (gs : GenesisState) (bz : Json) → cdc.marshal_json gs ≡ ok bz → cdc.unmarshal_json bz ≡ ok gs

pub data GenesisError : Type 0 where
  codec_failed : LibError → GenesisError
  params_not_set : GenesisError

unfoldable pub module_default_genesis :
    {Json : Type 0} → GenesisCodec Json → Result GenesisError Json
module_default_genesis cdc = map_err codec_failed (cdc.marshal_json default_genesis)

-- `gs.Validate()` accepts every state.
unfoldable pub validate_genesis :
    {Json : Type 0} → GenesisCodec Json → Json → Result GenesisError (Unit {0})
validate_genesis cdc bz = and_then (map_err codec_failed (cdc.unmarshal_json bz)) (λ gs. ok tt)

-- The errors of these two are panics.
unfoldable pub module_init_genesis :
    {Json : Type 0} → GenesisCodec Json → Json → State → Result GenesisError State
module_init_genesis cdc bz s =
    and_then (map_err codec_failed (cdc.unmarshal_json bz)) (λ gs. ok (init_genesis gs s))

unfoldable pub module_export_genesis :
    {Json : Type 0} → GenesisCodec Json → State → Result GenesisError Json
module_export_genesis cdc s = elim (export_genesis s) [
  | none ↦ err params_not_set
  | some gs ↦ map_err codec_failed (cdc.marshal_json gs)
]

-- With a codec that reads back what it wrote, a genesis that the module has exported is valid, can be
-- imported into any state, and is exported again after that just as it was.
pub module_export_genesis-module_init_genesis :
    {Json : Type 0} (cdc : GenesisCodec Json) (s t : State) (bz : Json)
    → IsFaithful cdc
    → module_export_genesis cdc s ≡ ok bz
    → (validate_genesis cdc bz ≡ ok tt)
      × ((u : State) × (module_init_genesis cdc bz t ≡ ok u)
          × (module_export_genesis cdc u ≡ ok bz))
unfolding module_export_genesis validate_genesis module_init_genesis
module_export_genesis-module_init_genesis cdc s t bz faithful h =
    elim (Option-cases (export_genesis s)) [
      | inl p ↦ absurd (cc (rw (module_export_genesis, p) at h))
      | inr (gs, p) ↦
          let written : cdc.marshal_json gs ≡ ok bz =
            map_err-ok codec_failed (cdc.marshal_json gs) bz (rw (module_export_genesis, p) at h) in
          let back = faithful gs bz written in
          (
            rw back,
            (
              init_genesis gs t,
              rw back,
              rw (module_export_genesis, export_genesis-init_genesis gs t, written),
            ),
          )
    ]

-- ===== src/App/Export/Exported.antt =====
-- What `ExportAppStateAndValidators` of app/export.go returns.
use shinzohub.Prelude.{
  ℕ, Bytes, Bool, true, false, List, [], ◌≡◌, refl, ap, ◌∙◌, ok, resume-ok, resume-map_err, subst,
  ◌+◌, ◌%◌, ◌^◌,
}
use shinzohub.App.Export.{Keepers, Calls, returned}
use shinzohub.App.Export.Staking.{
  prep_for_zero_height_genesis, ExportedApp, prepare, export_app_state_and_validators,
}

-- The height of an export, and the calls made before it.
abbrev pub IsExportHeight : Keepers → Bool → List Bytes → ℕ → Calls → Type 0
IsExportHeight k true allowed h t =
    (h ≡ 0) × (prep_for_zero_height_genesis k allowed [] ≡ (ok tt, t))
IsExportHeight k false allowed h t = (h ≡ (k.last_block_height + 1) % 2 ^ 64) × (t ≡ [])

prepare-IsExportHeight :
    (k : Keepers) (zero : Bool) (allowed : List Bytes) (h : ℕ) (t : Calls)
    → prepare k zero allowed [] ≡ (ok h, t)
    → IsExportHeight k zero allowed h t
unfolding prepare
prepare-IsExportHeight k true allowed h t e =
    let (x, s, first, rest) = resume-ok (prep_for_zero_height_genesis k allowed []) _ h t e in
    (cc rest, first ∙ ap (λ u. (ok tt, u)) (cc rest))
prepare-IsExportHeight k false allowed h t e = (cc e, cc e)

pub record IsExported (k : Keepers) (zero : Bool) (allowed modules : List Bytes) (app : ExportedApp)
    (t : Calls) : Type 0 where
  pub height : IsExportHeight k zero allowed app.height t
  pub state : Bytes
  pub exported : k.export_genesis t modules ≡ ok state
  pub marshalled : k.marshal state ≡ ok app.app_state
  pub validators : k.write_validators t ≡ ok app.validators
  pub consensus_params : app.consensus_params ≡ k.consensus_params t

-- An export that succeeds returns the genesis state of the wanted modules, marshalled, the validators
-- and the consensus parameters, all as they are after the calls made: with the preparation for height
-- zero the height is 0 and the calls are those of the preparation, which has succeeded; without it the
-- height is the one after the last block's, as an `int64` that wraps, and no call was made.
pub export_app_state_and_validators-IsExported :
    (k : Keepers) (zero : Bool) (allowed modules : List Bytes) (app : ExportedApp) (t : Calls)
    → export_app_state_and_validators k zero allowed modules [] ≡ (ok app, t)
    → IsExported k zero allowed modules app t
unfolding export_app_state_and_validators
export_app_state_and_validators-IsExported k zero allowed modules app t e =
    let (h, s, e₁, r₁) = resume-ok (prepare k zero allowed []) _ app t e in
    let (st, e₂, r₂) = resume-map_err returned (k.export_genesis s modules) s _ app t r₁ in
    let (bz, e₃, r₃) = resume-map_err returned (k.marshal st) s _ app t r₂ in
    let (vs, e₄, r₄) = resume-map_err returned (k.write_validators s) s _ app t r₃ in
    let made : ExportedApp = record {
      app_state = bz;
      validators = vs;
      height = h;
      consensus_params = k.consensus_params s;
    } in
    let same_app : made ≡ app = cc r₄ in
    let same_calls : s ≡ t = cc r₄ in
    subst (λ x. IsExported k zero allowed modules x t) same_app
      (subst (λ x. IsExported k zero allowed modules made x) same_calls
        (record {
          height = prepare-IsExportHeight k zero allowed h s e₁;
          state = st;
          exported = e₂;
          marshalled = e₃;
          validators = e₄;
          consensus_params = refl;
        }))

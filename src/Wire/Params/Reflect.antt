-- ===== src/Wire/Params/Reflect.antt =====
-- shinzonetwork/sourcehub/v1/params.pulsar.go: the reflection of `Params`.
use shinzohub.Prelude.{List, [], ◌∷◌, Bool, Bytes, codes, Result}
use shinzohub.Sourcehub.State.{Params}
use shinzohub.Wire.Reflection.{
  FieldDescriptor, Value, Panic, Field, string_field, has_of, get_of, set_of, clear_of,
  new_field_of, mutable_of, range_of,
}

unfoldable pub params_fields : List (Field Params)
params_fields =
    string_field (codes "shinzonetwork.sourcehub.v1.Params.admin") (λ x. x.admin)
      (λ v x. record x { admin = v })
    ∷ []

unfoldable pub range_params : (Bytes → Value → Bool) → Params → List (Bytes × Value)
range_params = range_of params_fields

unfoldable pub has_params : FieldDescriptor → Params → Result Panic Bool
has_params = has_of params_fields

unfoldable pub clear_params : FieldDescriptor → Params → Result Panic Params
clear_params = clear_of params_fields

unfoldable pub get_params : FieldDescriptor → Params → Result Panic Value
get_params = get_of params_fields

unfoldable pub set_params : FieldDescriptor → Value → Params → Result Panic Params
set_params = set_of params_fields

unfoldable pub mutable_params : FieldDescriptor → Result Panic Value
mutable_params = mutable_of params_fields

unfoldable pub new_field_params : FieldDescriptor → Result Panic Value
new_field_params = new_field_of params_fields

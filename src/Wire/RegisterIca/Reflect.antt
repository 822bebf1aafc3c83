-- ===== src/Wire/RegisterIca/Reflect.antt =====
-- shinzonetwork/sourcehub/v1/tx.pulsar.go: the reflection of `MsgRegisterSourcehubICA`.
use shinzohub.Prelude.{List, [], ◌∷◌, Bool, Bytes, codes, Result}
use shinzohub.Sourcehub.Messages.{MsgRegisterSourcehubIca}
use shinzohub.Wire.Reflection.{
  FieldDescriptor, Value, Panic, Field, string_field, has_of, get_of, set_of, clear_of,
  new_field_of, mutable_of, range_of,
}

unfoldable pub register_ica_fields : List (Field MsgRegisterSourcehubIca)
register_ica_fields =
    string_field (codes "shinzonetwork.sourcehub.v1.MsgRegisterSourcehubICA.signer") (λ x. x.signer)
      (λ v x. record x { signer = v })
    ∷ string_field
        (codes "shinzonetwork.sourcehub.v1.MsgRegisterSourcehubICA.controller_connection_id")
        (λ x. x.controller_connection_id) (λ v x. record x { controller_connection_id = v })
    ∷ string_field (codes "shinzonetwork.sourcehub.v1.MsgRegisterSourcehubICA.host_connection_id")
        (λ x. x.host_connection_id) (λ v x. record x { host_connection_id = v })
    ∷ []

unfoldable pub range_register_ica :
    (Bytes → Value → Bool) → MsgRegisterSourcehubIca → List (Bytes × Value)
range_register_ica = range_of register_ica_fields

unfoldable pub has_register_ica : FieldDescriptor → MsgRegisterSourcehubIca → Result Panic Bool
has_register_ica = has_of register_ica_fields

unfoldable pub clear_register_ica :
    FieldDescriptor → MsgRegisterSourcehubIca → Result Panic MsgRegisterSourcehubIca
clear_register_ica = clear_of register_ica_fields

unfoldable pub get_register_ica : FieldDescriptor → MsgRegisterSourcehubIca → Result Panic Value
get_register_ica = get_of register_ica_fields

unfoldable pub set_register_ica :
    FieldDescriptor → Value → MsgRegisterSourcehubIca → Result Panic MsgRegisterSourcehubIca
set_register_ica = set_of register_ica_fields

unfoldable pub mutable_register_ica : FieldDescriptor → Result Panic Value
mutable_register_ica = mutable_of register_ica_fields

unfoldable pub new_field_register_ica : FieldDescriptor → Result Panic Value
new_field_register_ica = new_field_of register_ica_fields

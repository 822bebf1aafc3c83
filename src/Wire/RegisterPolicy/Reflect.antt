-- ===== src/Wire/RegisterPolicy/Reflect.antt =====
-- shinzonetwork/sourcehub/v1/tx.pulsar.go: the reflection of `MsgRegisterShinzoPolicy`.
use shinzohub.Prelude.{List, [], ◌∷◌, Bool, Bytes, codes, Result}
use shinzohub.Sourcehub.Messages.{MsgRegisterShinzoPolicy}
use shinzohub.Wire.Reflection.{
  FieldDescriptor, Value, Panic, Field, string_field, has_of, get_of, set_of, clear_of,
  new_field_of, mutable_of, range_of,
}

unfoldable pub register_policy_fields : List (Field MsgRegisterShinzoPolicy)
register_policy_fields =
    string_field (codes "shinzonetwork.sourcehub.v1.MsgRegisterShinzoPolicy.signer") (λ x. x.signer)
      (λ v x. record x { signer = v })
    ∷ []

unfoldable pub range_register_policy :
    (Bytes → Value → Bool) → MsgRegisterShinzoPolicy → List (Bytes × Value)
range_register_policy = range_of register_policy_fields

unfoldable pub has_register_policy : FieldDescriptor → MsgRegisterShinzoPolicy → Result Panic Bool
has_register_policy = has_of register_policy_fields

unfoldable pub clear_register_policy :
    FieldDescriptor → MsgRegisterShinzoPolicy → Result Panic MsgRegisterShinzoPolicy
clear_register_policy = clear_of register_policy_fields

unfoldable pub get_register_policy : FieldDescriptor → MsgRegisterShinzoPolicy → Result Panic Value
get_register_policy = get_of register_policy_fields

unfoldable pub set_register_policy :
    FieldDescriptor → Value → MsgRegisterShinzoPolicy → Result Panic MsgRegisterShinzoPolicy
set_register_policy = set_of register_policy_fields

unfoldable pub mutable_register_policy : FieldDescriptor → Result Panic Value
mutable_register_policy = mutable_of register_policy_fields

unfoldable pub new_field_register_policy : FieldDescriptor → Result Panic Value
new_field_register_policy = new_field_of register_policy_fields

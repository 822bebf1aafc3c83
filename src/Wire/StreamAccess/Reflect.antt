-- ===== src/Wire/StreamAccess/Reflect.antt =====
-- shinzonetwork/sourcehub/v1/tx.pulsar.go: the reflection of `MsgRequestStreamAccess`.
pub mod Laws
use shinzohub.Prelude.{List, [], ◌∷◌, Bool, Bytes, codes, Result}
use shinzohub.Sourcehub.Messages.{MsgRequestStreamAccess}
use shinzohub.Wire.Reflection.{
  FieldDescriptor, Value, Panic, Field, enum_field, string_field, uint_field, has_of, get_of,
  set_of, clear_of, new_field_of, mutable_of, range_of,
}

unfoldable pub stream_access_fields : List (Field MsgRequestStreamAccess)
stream_access_fields =
    string_field (codes "shinzonetwork.sourcehub.v1.MsgRequestStreamAccess.signer") (λ x. x.signer)
      (λ v x. record x { signer = v })
    ∷ enum_field (codes "shinzonetwork.sourcehub.v1.MsgRequestStreamAccess.resource")
        (λ x. x.resource) (λ v x. record x { resource = v })
    ∷ string_field (codes "shinzonetwork.sourcehub.v1.MsgRequestStreamAccess.stream_id")
        (λ x. x.stream_id) (λ v x. record x { stream_id = v })
    ∷ string_field (codes "shinzonetwork.sourcehub.v1.MsgRequestStreamAccess.did") (λ x. x.did)
        (λ v x. record x { did = v })
    ∷ uint_field (codes "shinzonetwork.sourcehub.v1.MsgRequestStreamAccess.expiration")
        (λ x. x.expiration) (λ v x. record x { expiration = v })
    ∷ []

unfoldable pub range_stream_access :
    (Bytes → Value → Bool) → MsgRequestStreamAccess → List (Bytes × Value)
range_stream_access = range_of stream_access_fields

unfoldable pub has_stream_access : FieldDescriptor → MsgRequestStreamAccess → Result Panic Bool
has_stream_access = has_of stream_access_fields

unfoldable pub clear_stream_access :
    FieldDescriptor → MsgRequestStreamAccess → Result Panic MsgRequestStreamAccess
clear_stream_access = clear_of stream_access_fields

unfoldable pub get_stream_access : FieldDescriptor → MsgRequestStreamAccess → Result Panic Value
get_stream_access = get_of stream_access_fields

unfoldable pub set_stream_access :
    FieldDescriptor → Value → MsgRequestStreamAccess → Result Panic MsgRequestStreamAccess
set_stream_access = set_of stream_access_fields

unfoldable pub mutable_stream_access : FieldDescriptor → Result Panic Value
mutable_stream_access = mutable_of stream_access_fields

unfoldable pub new_field_stream_access : FieldDescriptor → Result Panic Value
new_field_stream_access = new_field_of stream_access_fields

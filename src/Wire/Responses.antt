-- ===== src/Wire/Responses.antt =====
-- shinzonetwork/sourcehub/v1/tx.pulsar.go: the four responses, which have no fields, on the wire.
use shinzohub.Prelude.{
  ℕ, ◌^◌, ◌<◌, ◌≡◌, ◌≢◌, [], ◌++◌, Bool, Bytes, length, Result, ok, err, Option, some,
}
use shinzohub.Wire.Reader.{Fault, Cursor, out_of_fuel, select}
use shinzohub.Wire.Reader.Within.{select-Moves}
use shinzohub.Wire.Writer.{Halt, Buffer, put, size_of, marshal_of}
use shinzohub.Wire.Writer.Writes.{put-Writes, marshal_of-Writes}
use shinzohub.Wire.Loop.{Message, Skip, unmarshal_of}
use shinzohub.Wire.Loop.Ends.{Progresses, SkipsTag, unmarshal_of-ends}

pub data Empty : Type 0 where
  empty : Empty

-- What the methods of the four have in common.
unfoldable pub total_empty : Message Empty → ℕ
total_empty x = length x.unknown_fields

unfoldable pub write_empty : Message Empty → Buffer → Result Halt Buffer
write_empty x = put x.unknown_fields

unfoldable pub switch_empty : ℕ → ℕ → Empty → Cursor → Option (Result Fault (Empty × Cursor))
switch_empty number wire_type x c = select number []

-- `MsgRegisterSourcehubICAResponse`
unfoldable pub size_register_ica_response : Option (Message Empty) → ℕ
size_register_ica_response = size_of total_empty

unfoldable pub marshal_register_ica_response :
    (Option (Message Empty) → ℕ) → Bytes → Option (Message Empty) → Result Halt Bytes
marshal_register_ica_response options_size = marshal_of options_size write_empty

unfoldable pub unmarshal_register_ica_response :
    Skip → Bool → Bytes → Option (Message Empty) → Result Fault (Option (Message Empty))
unmarshal_register_ica_response skip discard = unmarshal_of skip discard switch_empty

-- `MsgRegisterShinzoPolicyResponse`
unfoldable pub size_register_policy_response : Option (Message Empty) → ℕ
size_register_policy_response = size_of total_empty

unfoldable pub marshal_register_policy_response :
    (Option (Message Empty) → ℕ) → Bytes → Option (Message Empty) → Result Halt Bytes
marshal_register_policy_response options_size = marshal_of options_size write_empty

unfoldable pub unmarshal_register_policy_response :
    Skip → Bool → Bytes → Option (Message Empty) → Result Fault (Option (Message Empty))
unmarshal_register_policy_response skip discard = unmarshal_of skip discard switch_empty

-- `MsgRegisterShinzoObjectsResponse`
unfoldable pub size_register_objects_response : Option (Message Empty) → ℕ
size_register_objects_response = size_of total_empty

unfoldable pub marshal_register_objects_response :
    (Option (Message Empty) → ℕ) → Bytes → Option (Message Empty) → Result Halt Bytes
marshal_register_objects_response options_size = marshal_of options_size write_empty

unfoldable pub unmarshal_register_objects_response :
    Skip → Bool → Bytes → Option (Message Empty) → Result Fault (Option (Message Empty))
unmarshal_register_objects_response skip discard = unmarshal_of skip discard switch_empty

-- `MsgRequestStreamAccessResponse`
unfoldable pub size_stream_access_response : Option (Message Empty) → ℕ
size_stream_access_response = size_of total_empty

unfoldable pub marshal_stream_access_response :
    (Option (Message Empty) → ℕ) → Bytes → Option (Message Empty) → Result Halt Bytes
marshal_stream_access_response options_size = marshal_of options_size write_empty

unfoldable pub unmarshal_stream_access_response :
    Skip → Bool → Bytes → Option (Message Empty) → Result Fault (Option (Message Empty))
unmarshal_stream_access_response skip discard = unmarshal_of skip discard switch_empty

switch_empty-Progresses : Progresses switch_empty
unfolding switch_empty
switch_empty-Progresses number wire_type x c = select-Moves _ number [] tt

pub unmarshal_empty-ends :
    (skip : Skip) (discard : Bool) (input : Bytes) (o : Option (Message Empty))
    → SkipsTag skip
    → unmarshal_of skip discard switch_empty input o ≢ err out_of_fuel
unmarshal_empty-ends skip discard input o law =
    unmarshal_of-ends skip law discard switch_empty switch_empty-Progresses input o

-- A response is written as the fields that its type does not have.
pub marshal_empty-format :
    (options_size : Option (Message Empty) → ℕ) (out : Bytes) (x : Message Empty)
    → options_size (some x) ≡ size_of total_empty (some x)
    → length x.unknown_fields < 2 ^ 63
    → marshal_of options_size write_empty out (some x) ≡ ok (out ++ x.unknown_fields)
unfolding total_empty write_empty
marshal_empty-format options_size out x own h =
    marshal_of-Writes total_empty write_empty _ x options_size out own (put-Writes x.unknown_fields)
      h

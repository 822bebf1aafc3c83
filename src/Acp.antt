-- ===== src/Acp.antt =====
-- The messages of the access-control library (acp_core, sourcehub/x/acp) that the program builds.
-- Their code is not part of the repository: each constructor stands for a call of the library's
-- constructor function of that name, with its arguments in order.
use shinzohub.Prelude.{Bytes}

-- `coretypes.NewObject(resource, id)`
pub data Object : Type 0 where
  new_object : Bytes → Bytes → Object

pub data Relationship : Type 0 where
  -- resource, object id, relation, DID
  actor_relationship : Bytes → Bytes → Bytes → Bytes → Relationship
  -- resource, object id, relation, subject resource, subject id
  relationship : Bytes → Bytes → Bytes → Bytes → Bytes → Relationship
  -- resource, object id, relation, subject resource, subject id, subject relation
  actor_set_relationship : Bytes → Bytes → Bytes → Bytes → Bytes → Bytes → Relationship

pub data PolicyCmd : Type 0 where
  set_relationship delete_relationship : Relationship → PolicyCmd
  register_object : Object → PolicyCmd

pub data MarshalType : Type 0 where
  yaml : MarshalType

-- `MsgDirectPolicyCmd` and `MsgCreatePolicy`: the creator, the policy's id or its text, the rest.
pub data AcpMsg : Type 0 where
  direct_policy_cmd : Bytes → Bytes → PolicyCmd → AcpMsg
  create_policy : Bytes → Bytes → MarshalType → AcpMsg

-- ===== src/Sourcehub/Keys.antt =====
-- The names and store keys of x/sourcehub/types/keys.go.
use shinzohub.Prelude.{ℕ, Bytes, codes}

abbrev pub module_name : Bytes
module_name = codes "sourcehub"

abbrev pub key_connection_id : Bytes
key_connection_id = codes "controller_connection_id"

abbrev pub key_host_connection_id : Bytes
key_host_connection_id = codes "host_connection_id"

abbrev pub key_version : Bytes
key_version = codes "version"

abbrev pub key_encoding : Bytes
key_encoding = codes "encoding"

abbrev pub key_tx_type : Bytes
key_tx_type = codes "tx_type"

abbrev pub key_policy_id : Bytes
key_policy_id = codes "policy_id"

abbrev pub view_resource_name : Bytes
view_resource_name = codes "view"

abbrev pub primitive_resource_name : Bytes
primitive_resource_name = codes "primitive"

abbrev pub group_object_name : Bytes
group_object_name = codes "group"

abbrev pub group_host_name : Bytes
group_host_name = codes "host"

abbrev pub group_indexer_name : Bytes
group_indexer_name = codes "indexer"

abbrev pub addr_role_prefix : Bytes
addr_role_prefix = codes "addr_role:"

abbrev pub did_role_prefix : Bytes
did_role_prefix = codes "did_role:"

abbrev pub role_indexer : ℕ
role_indexer = 0

abbrev pub role_host : ℕ
role_host = 1

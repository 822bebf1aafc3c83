-- ===== src/Sourcehub/Roles.antt =====
-- x/sourcehub/keeper/role.go: the names of the roles, the keys of the two registration indexes,
-- and the comparison of byte slices. A role is a `uint8`.
pub mod KeyLaws
use shinzohub.Prelude.{
  ℕ, Bytes, Bool, true, false, [], ◌∷◌, ◌++◌, codes, length, format_uint, ◌==◌, if◌then◌else◌,
}
use shinzohub.Sourcehub.Keys.{role_indexer, role_host, addr_role_prefix, did_role_prefix}

unfoldable pub role_to_string : ℕ → Bytes
role_to_string role =
    if role == role_indexer
    then codes "indexer"
    else if role == role_host
    then codes "host"
    else codes "unknown"

unfoldable pub addr_role_key : Bytes → ℕ → Bytes
addr_role_key address role = ((addr_role_prefix ++ address) ++ b':' ∷ []) ++ format_uint role

unfoldable pub did_role_key : Bytes → ℕ → Bytes
did_role_key did role = ((did_role_prefix ++ did) ++ b':' ∷ []) ++ format_uint role

-- The loop over the indexes of `a`. The slices have equal lengths there; Go would panic on the
-- read behind the end of `b`.
unfoldable pub equal_loop : Bytes → Bytes → Bool
equal_loop [] b = true
equal_loop (x ∷ a) [] = false
equal_loop (x ∷ a) (y ∷ b) = let rest = equal_loop a b in if x == y then rest else false

unfoldable pub bytes_equal : Bytes → Bytes → Bool
unfolding equal_loop
bytes_equal a b = if length a == length b then equal_loop a b else false

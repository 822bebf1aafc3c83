-- ===== src/App/Filter.antt =====
-- The filter of messages of app/decorators/msg_filter_template.go, which looks into nested messages.
pub mod Laws
use shinzohub.Prelude.{
  ℕ, Bytes, Bool, true, false, List, [], ◌∷◌, Result, err, codes, same, if◌then◌else◌,
}

-- A message of a transaction: one with its name, or an `authz.MsgExec` with the messages in it, or one
-- whose messages cannot be read.
mutual
  pub data TxMsg : Type 0 where
    plain : Bytes → TxMsg
    exec : TxMsgs → TxMsg
    unreadable_exec : TxMsg

  pub data TxMsgs : Type 0 where
    end : TxMsgs
    next : TxMsg → TxMsgs → TxMsgs

abbrev pub exec_name : Bytes
exec_name = codes "cosmos.authz.v1beta1.MsgExec"

-- `proto.MessageName`
unfoldable pub message_name : TxMsg → Bytes
message_name (plain name) = name
message_name (exec msgs) = exec_name
message_name unreadable_exec = exec_name

-- The loop over the blocked types.
unfoldable pub is_blocked : List Bytes → Bytes → Bool
is_blocked [] name = false
is_blocked (blocked ∷ rest) name =
    let more = is_blocked rest name in if same name blocked then true else more

module _ (blocked : List Bytes) where
  unfoldable mutual
    unfolding is_blocked message_name

    -- The body of the loop, for one message.
    pub is_disallowed : TxMsg → Bool
    is_disallowed (plain name) = is_blocked blocked name
    is_disallowed (exec msgs) =
        let nested = has_disallowed_message msgs in
        if nested then true else is_blocked blocked exec_name
    is_disallowed unreadable_exec = true

    pub has_disallowed_message : TxMsgs → Bool
    has_disallowed_message end = false
    has_disallowed_message (next msg msgs) =
        let found = is_disallowed msg in
        let more = has_disallowed_message msgs in if found then true else more

pub data FilterError : Type 0 where
  unsupported_at : ℕ → FilterError

-- `AnteHandle`: `handler` is the rest of the chain, which runs on the transaction's context.
unfoldable pub filter_ante_handle :
    {C : Type 0} (E : Type 0)
    → (FilterError → E)
    → List Bytes
    → (C → ℕ)
    → (C → TxMsgs → Result E C)
    → C
    → TxMsgs
    → Result E C
filter_ante_handle E wrap blocked block_height handler ctx msgs =
    if has_disallowed_message blocked msgs
    then err (wrap (unsupported_at (block_height ctx)))
    else handler ctx msgs

-- ===== src/Tests/App.antt =====
-- The theorems on the filter and the routing of transactions, app/decorators and app/ante.
use shinzohub.Prelude.{Bytes, true, List, [], ◌∷◌, none, some, ok, codes, ◌≡◌, ◌↔◌, ◌⊎◌, refl}
use shinzohub.App.Filter.{plain, exec, end, next, TxMsgs, has_disallowed_message}
use shinzohub.App.Filter.Laws.{Holds, has_disallowed_message_iff}
use shinzohub.App.Ante.{
  Tx, sig_verification, new_ante_handler, new_cosmos_ante_handler, new_mono_evm_ante_handler,
  ethereum_tx, route_plain,
}
use shinzohub.App.Ante.Routes.{IsIn, new_ante_handler_cases}

-- A transfer inside an `authz.MsgExec` that is itself inside another.
abbrev nested : TxMsgs
nested =
    next (plain (codes "vote"))
      (next (exec (next (exec (next (plain (codes "send")) end)) end)) end)

has_disallowed_message_iff_example :
    (has_disallowed_message (codes "send" ∷ []) nested ≡ true) ↔ Holds (codes "send" ∷ []) nested
has_disallowed_message_iff_example = has_disallowed_message_iff (codes "send" ∷ []) nested

abbrev plain_tx : Tx
plain_tx = record { extension_options = none; is_sdk_tx = true }

plain_routed : new_ante_handler plain_tx ≡ ok new_cosmos_ante_handler
unfolding new_ante_handler route_plain
plain_routed = refl

new_ante_handler_cases_example :
    IsIn sig_verification new_cosmos_ante_handler
    ⊎ ((rest : List Bytes) × (plain_tx.extension_options ≡ some (ethereum_tx ∷ rest))
        × (new_cosmos_ante_handler ≡ new_mono_evm_ante_handler))
new_ante_handler_cases_example =
    new_ante_handler_cases plain_tx new_cosmos_ante_handler plain_routed

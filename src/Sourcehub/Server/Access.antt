-- ===== src/Sourcehub/Server/Access.antt =====
-- Who may send the messages of the module, and what happens to the others.
use shinzohub.Prelude.{
  Bytes, true, false, some, [], ◌≡◌, ◌≢◌, ◌↔◌, ◌⊎◌, inl, inr, sym, arith, err, same, same_iff,
  same→eq, eq→same, Bool-cases, Option-cases,
}
use shinzohub.Sourcehub.State.{State, Params, Env, Error}
use shinzohub.Sourcehub.Keeper.{Keeper, get_params, get_admins, find_admin, is_admin}
use shinzohub.Sourcehub.Server.{
  require_admin, register_sourcehub_ica, register_shinzo_policy, register_shinzo_objects,
  request_stream_access, Msg, signer_of, handle,
}

-- The authority of the module, or the admin of the parameters if there is one.
abbrev pub MayAdminister : Keeper → Bytes → State → Type 0
MayAdminister k a s =
    (a ≡ k.authority) ⊎ ((p : Params) × (s.params ≡ some p) × (p.admin ≢ []) × (a ≡ p.admin))

is_admin→may : (k : Keeper) (a : Bytes) (s : State) → is_admin k a s ≡ true → MayAdminister k a s
unfolding is_admin get_admins get_params find_admin
is_admin→may k a s h = elim (Option-cases s.params) [
  | inl q ↦ inl (ground (arith, same_iff k.authority a))
  | inr (p, q) ↦ elim (Bool-cases (same k.authority a)) [
    | inl e ↦ inl (sym (same→eq k.authority a e))
    | inr e ↦ inr (p, q, (λ z. absurd (ground arith)), ground (arith, same_iff p.admin a))
  ]
]

may→is_admin : (k : Keeper) (a : Bytes) (s : State) → MayAdminister k a s → is_admin k a s ≡ true
unfolding is_admin get_admins get_params find_admin
may→is_admin k a s (inl e) = ground (arith, eq→same k.authority a)
may→is_admin k a s (inr (p, q, ne, e)) =
    ground (arith, eq→same p.admin a, same_iff p.admin k.authority, same_iff k.authority a)

-- `IsAdmin` holds of exactly the module's authority and, if the parameters are set and name one, their
-- admin.
pub is_admin_iff :
    (k : Keeper) (a : Bytes) (s : State) → (is_admin k a s ≡ true) ↔ MayAdminister k a s
is_admin_iff k a s = (is_admin→may k a s, may→is_admin k a s)

require_admin-unauthorized :
    (k : Keeper) (a : Bytes) (s : State)
    → is_admin k a s ≡ false
    → require_admin k a s ≡ (err Error.unauthorized, s)
unfolding require_admin
require_admin-unauthorized k a s h = rw h

not_admin : (k : Keeper) (a : Bytes) (s : State) → ¬ MayAdminister k a s → is_admin k a s ≡ false
not_admin k a s outsider = elim (Bool-cases (is_admin k a s)) [
  | inl e ↦ absurd (outsider (is_admin→may k a s e))
  | inr e ↦ e
]

-- A message of any type whose signer is no admin is refused as unauthorized and changes nothing.
pub handle_unauthorized :
    (text : Bytes) (k : Keeper) (env : Env) (m : Msg) (s : State)
    → ¬ MayAdminister k (signer_of m) s
    → handle text k env m s ≡ (err Error.unauthorized, s)
unfolding handle register_sourcehub_ica register_shinzo_policy register_shinzo_objects
    request_stream_access
handle_unauthorized text k env (Msg.sourcehub_ica m) s outsider =
    rw (require_admin-unauthorized k m.signer s (not_admin k m.signer s outsider))
handle_unauthorized text k env (Msg.shinzo_policy m) s outsider =
    rw (require_admin-unauthorized k m.signer s (not_admin k m.signer s outsider))
handle_unauthorized text k env (Msg.shinzo_objects m) s outsider =
    rw (require_admin-unauthorized k m.signer s (not_admin k m.signer s outsider))
handle_unauthorized text k env (Msg.stream_access m) s outsider =
    rw (require_admin-unauthorized k m.signer s (not_admin k m.signer s outsider))

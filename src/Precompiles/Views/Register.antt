-- ===== src/Precompiles/Views/Register.antt =====
-- What `register` of app/precompiles/viewregistry/methods.go does to the chain.
use shinzohub.Prelude.{
  Bytes, some, List, [], ◌∷◌, ◌++◌, Result, ok, Result-cases, same, same_refl, ◌&&◌, Option-cases,
  Fails, codes, if◌then◌else◌, ◌≡◌, refl, ◌⊎◌, inl, inr, arith,
}
use shinzohub.Sourcehub.State.{State, Env, Event, event}
use shinzohub.Sourcehub.Server.{emit}
use shinzohub.Sourcehub.Registration.Outcome.{IsObjectSent, register_object_cases}
use shinzohub.Sourcehub.Packets.Outcome.{after_packet}
use shinzohub.Precompiles.Evm.{
  Log, log, World, Contract, Arg, bytes, uint8, bytes32, other, EvmLib, EvmError, on_module,
  add_log, arg_at,
}
use shinzohub.Precompiles.Sdl.{Match, find_type}
use shinzohub.Precompiles.Views.{
  Bundle, BundleLib, value_argument, key_argument, set_state, find_name, view_id, rename,
  view_registry_register, view_registry_get,
}

abbrev view_key : EvmLib → Contract → Bytes → Bytes
view_key lib contract value = lib.keccak (contract.caller ++ value)

-- The log and the event of a registration.
abbrev pub registered_log : EvmLib → Contract → Bytes → Bytes → Log
registered_log lib contract value encoded =
    log contract.address
      (lib.keccak (codes "Registered(bytes32,address)")
        ∷ view_key lib contract value
        ∷ lib.bytes_to_hash contract.caller
        ∷ [])
      encoded

abbrev pub registered_event : EvmLib → Contract → Bytes → Bytes → Event
registered_event lib contract value encoded = event (codes "Registered") (
    (codes "key", lib.hash_hex (view_key lib contract value))
    ∷ (codes "creator", lib.account_string contract.caller)
    ∷ (codes "view", lib.base64 encoded)
    ∷ [])

abbrev pub with_event : Event → State → State
with_event e s = record s { events = s.events ++ e ∷ [] }

-- What a successful `register` leaves: the object's registration and one event more in the module, the
-- caller in the slot of the view's key and the other slots as they were, and one log more. Log and
-- event carry the bundle with its type renamed to the object's id.
pub record IsRegisteredView (env : Env) (lib : EvmLib) (bundles : BundleLib) (contract : Contract)
    (args : List Arg) (w : World) (r : Result EvmError Bytes × World) : Type 0 where
  pub value : Bytes
  pub argument : arg_at args 0 ≡ some (bytes value)
  pub bundle : Bundle
  pub decoded : bundles.decode value ≡ ok bundle
  pub name : Match
  pub has_name : find_type bundle.sdl ≡ some name
  pub object :
      IsObjectSent env
        ((name.name ++ codes "_") ++ lib.hash_hex (view_key lib contract value))
        w.module_state
  pub encoded : Bytes
  pub renamed :
      bundles.encode (record bundle {
        sdl =
            (name.before
              ++ ((name.name ++ codes "_") ++ lib.hash_hex (view_key lib contract value)))
            ++ name.after;
      })
      ≡ ok encoded
  pub returns : r.0 ≡ ok []
  pub state :
      r.1.module_state
      ≡ with_event
          (registered_event lib contract value encoded)
          (after_packet env object.channel object.packet w.module_state)
  pub storage : r.1.storage ≡ λ a k.
      if same a contract.address
        && same k (lib.keccak (codes "view.creator" ++ view_key lib contract value))
      then lib.bytes_to_hash (lib.left_pad_32 contract.caller)
      else w.storage a k
  pub logs : r.1.logs ≡ w.logs ++ registered_log lib contract value encoded ∷ []

value_argument-ok :
    (args : List Arg) (value : Bytes)
    → value_argument args ≡ ok value
    → arg_at args 0 ≡ some (bytes value)
unfolding value_argument
value_argument-ok args value = elim (Option-cases (arg_at args 0)) [
  | inl p ↦ rw p (λ h. absurd (cc))
  | inr (bytes b, p) ↦ rw p (λ h. cc)
  | inr (uint8 n, p) ↦ rw p (λ h. absurd (cc))
  | inr (bytes32 b, p) ↦ rw p (λ h. absurd (cc))
  | inr (other, p) ↦ rw p (λ h. absurd (cc))
]

find_name-some : (sdl : Bytes) (m : Match) → find_name sdl ≡ ok m → find_type sdl ≡ some m
unfolding find_name
find_name-some sdl m = elim (Option-cases (find_type sdl)) [
  | inl p ↦ rw (find_name, p) (λ h. absurd (cc))
  | inr (n, p) ↦ rw (find_name, p) (λ h. ground (arith, h, p))
]

-- A call of `register` either fails and leaves the whole world as it was, storage, logs and module
-- included, or it registers the view's object under its name and key, which leaves the module in the
-- state after the packet was sent with one event more, stores the caller under the key's slot and
-- under no other, adds one log with the renamed bundle and returns nothing.
pub view_registry_register_cases :
    (env : Env) (lib : EvmLib) (bundles : BundleLib) (contract : Contract) (args : List Arg)
    (w : World)
    → Fails (view_registry_register env lib bundles contract args w) w
      ⊎ IsRegisteredView env lib bundles contract args w
          (view_registry_register env lib bundles contract args w)
unfolding view_registry_register on_module set_state add_log emit
view_registry_register_cases env lib bundles contract args w =
    elim (Result-cases (value_argument args)) [
      | inl (e, p) ↦ inl (e, rw p refl)
      | inr (value, p) ↦ elim (Result-cases (bundles.decode value)) [
        | inl (e, q) ↦ inl (EvmError.reverted, rw (p, q) refl)
        | inr (bundle, q) ↦ elim (Result-cases (find_name bundle.sdl)) [
          | inl (e, n) ↦ inl (e, rw (p, q, n) refl)
          | inr (m, n) ↦
              elim (Result-cases (
                bundles.encode (record bundle {
                  sdl = rename m (view_id lib m (view_key lib contract value));
                }))) [
                  | inl (e, c) ↦ inl (EvmError.reverted, rw (p, q, n, c) refl)
                  | inr (encoded, c) ↦
                      elim (register_object_cases env (view_id lib m (view_key lib contract value))
                        w.module_state) [
                          | inl (e, o) ↦ inl (EvmError.reverted, rw (p, q, n, c, o) refl)
                          | inr sent ↦ inr (
                              rw (p, q, n, c, sent.result)
                                (record {
                                  value = value;
                                  argument = value_argument-ok args value p;
                                  bundle = bundle;
                                  decoded = q;
                                  name = m;
                                  has_name = find_name-some bundle.sdl m n;
                                  object = sent;
                                  encoded = encoded;
                                  renamed = c;
                                  returns = refl;
                                  state = refl;
                                  storage = refl;
                                  logs = refl;
                                }))
                        ]
                ]
        ]
      ]
    ]

-- After a successful `register`, `get` on the slot of the view's key gives the caller, and on any
-- other slot it gives what it gave before: no call of `get` gives the bundle back.
get-register :
    (env : Env) (lib : EvmLib) (bundles : BundleLib) (contract : Contract) (args : List Arg)
    (w : World) (key : Bytes)
    (h : IsRegisteredView env lib bundles contract args w
      (view_registry_register env lib bundles contract args w))
    → view_registry_get lib contract
        (bytes32 key ∷ [])
        (view_registry_register env lib bundles contract args w).1
      ≡ (
        ok (
            if same
              (lib.bytes_to_hash key)
              (lib.keccak (codes "view.creator" ++ view_key lib contract h.value))
            then lib.bytes_to_hash (lib.left_pad_32 contract.caller)
            else w.storage contract.address (lib.bytes_to_hash key)),
        (view_registry_register env lib bundles contract args w).1,
      )
unfolding view_registry_get key_argument arg_at
get-register env lib bundles contract args w key h = rw (h.storage, same_refl contract.address) refl

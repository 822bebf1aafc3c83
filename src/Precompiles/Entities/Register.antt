-- ===== src/Precompiles/Entities/Register.antt =====
-- What `register` of app/precompiles/entityregistry/method.go does to the chain.
use shinzohub.Prelude.{
  some, ℕ, Bytes, List, [], ◌∷◌, ◌++◌, Result, ok, err, Result-cases, Fails, codes, ◌≡◌, refl, ◌⊎◌,
  inl, inr,
}
use shinzohub.Sourcehub.State.{State, Env, LibError, Event, event}
use shinzohub.Sourcehub.Server.{emit}
use shinzohub.Sourcehub.Crypto.{Crypto}
use shinzohub.Sourcehub.Registration.{EntityProof, link}
use shinzohub.Sourcehub.Packets.Outcome.{after_packet}
use shinzohub.Sourcehub.Registration.Outcome.{IsRegistered, register_entity_cases}
use shinzohub.Precompiles.Evm.{
  arg_at, uint8, log, World, Contract, Arg, EvmLib, EvmError, on_module, add_log,
}
use shinzohub.Precompiles.Entities.Arguments.{IsBytes, bytes_argument_iff, entity_argument_iff}
use shinzohub.Precompiles.Entities.{
  bytes_argument, entity_argument, string_of_uint8, entity_topic, entity_registry_register,
}

abbrev proof_of : Bytes → Bytes → Bytes → Bytes → Bytes → EntityProof
proof_of k₁ s₁ k₂ s₂ m = record {
  peer_pubkey = k₁;
  peer_signature = s₁;
  node_pubkey = k₂;
  node_signature = s₂;
  message = m;
}

-- The arguments of a call that passes their checks: five byte strings that are not empty, and a number.
pub record IsCall (args : List Arg) (proof : EntityProof) (entity : ℕ) : Type 0 where
  pub peer_pubkey : IsBytes args 0 proof.peer_pubkey
  pub peer_signature : IsBytes args 1 proof.peer_signature
  pub node_pubkey : IsBytes args 2 proof.node_pubkey
  pub node_signature : IsBytes args 3 proof.node_signature
  pub message : IsBytes args 4 proof.message
  pub entity_given : arg_at args 5 ≡ some (uint8 entity)

IsCall-cases :
    (c : Crypto) (env : Env) (lib : EvmLib) (contract : Contract) (args : List Arg) (w : World)
    → Fails (entity_registry_register c env lib contract args w) w
      ⊎ ((proof : EntityProof) × (entity : ℕ) × IsCall args proof entity)
unfolding entity_registry_register
IsCall-cases c env lib contract args w =
    elim (Result-cases (bytes_argument (codes "peerKeyPubkey") args 0)) [
      | inl (e, p) ↦ inl (e, rw p refl)
      | inr (k₁, p₁) ↦ elim (Result-cases (bytes_argument (codes "peerKeySignature") args 1)) [
        | inl (e, p) ↦ inl (e, rw (p₁, p) refl)
        | inr (s₁, p₂) ↦
            elim (Result-cases (bytes_argument (codes "nodeIdentityKeyPubkey") args 2)) [
              | inl (e, p) ↦ inl (e, rw (p₁, p₂, p) refl)
              | inr (k₂, p₃) ↦
                  elim (Result-cases (bytes_argument (codes "nodeIdentityKeySignature") args 3)) [
                    | inl (e, p) ↦ inl (e, rw (p₁, p₂, p₃, p) refl)
                    | inr (s₂, p₄) ↦ elim (Result-cases (bytes_argument (codes "message") args 4)) [
                      | inl (e, p) ↦ inl (e, rw (p₁, p₂, p₃, p₄, p) refl)
                      | inr (m, p₅) ↦ elim (Result-cases (entity_argument args 5)) [
                        | inl (e, p) ↦ inl (e, rw (p₁, p₂, p₃, p₄, p₅, p) refl)
                        | inr (n, p₆) ↦ inr (
                          proof_of k₁ s₁ k₂ s₂ m,
                          n,
                          record {
                            peer_pubkey = (bytes_argument_iff _ args 0 k₁).0 p₁;
                            peer_signature = (bytes_argument_iff _ args 1 s₁).0 p₂;
                            node_pubkey = (bytes_argument_iff _ args 2 k₂).0 p₃;
                            node_signature = (bytes_argument_iff _ args 3 s₂).0 p₄;
                            message = (bytes_argument_iff _ args 4 m).0 p₅;
                            entity_given = (entity_argument_iff args 5 n).0 p₆;
                          },
                        )
                      ]
                    ]
                  ]
            ]
      ]
    ]

-- The state of the module with one event more.
abbrev pub with_event : Event → State → State
with_event e s = record s { events = s.events ++ e ∷ [] }

abbrev pub registered_event : EvmLib → Contract → ℕ → Bytes → Bytes → Event
registered_event lib contract entity did pid = event (codes "EntityRegistered") (
    (codes "key", lib.hash_hex (lib.keccak (contract.caller ++ did)))
    ∷ (codes "owner", lib.account_string contract.caller)
    ∷ (codes "did", did)
    ∷ (codes "pid", pid)
    ∷ (codes "entity", string_of_uint8 entity)
    ∷ [])

-- The keeper has registered the caller in the role `entity`, under the DID and the peer id of the
-- proof: the module's state holds the packet that was sent, and the pair in both indexes. The storage
-- is the same; and either there is one log and one event more, which carry both, and the call returns
-- nothing, or the log's data could not be packed and the call fails.
pub record IsRegisteredEntity (c : Crypto) (env : Env) (lib : EvmLib) (contract : Contract)
    (args : List Arg) (w : World) (r : Result EvmError Bytes × World) : Type 0 where
  pub proof : EntityProof
  pub entity : ℕ
  pub call : IsCall args proof entity
  pub did : Bytes
  pub pid : Bytes
  pub registered : IsRegistered c env proof entity contract.caller w.module_state did pid
  pub storage : r.1.storage ≡ w.storage
  pub outcome :
      ((packed : Bytes) × (lib.pack_entity did pid entity ≡ ok packed)
        × (r.0 ≡ ok [])
        × (r.1.module_state
            ≡ with_event (registered_event lib contract entity did pid) (
                link contract.caller entity did
                  (after_packet env registered.channel registered.packet w.module_state)))
        × (r.1.logs
            ≡ w.logs
              ++ log contract.address
                  (lib.keccak (codes "EntityRegistered(bytes32,address,bytes,bytes,uint8)")
                    ∷ lib.keccak (contract.caller ++ did)
                    ∷ lib.bytes_to_hash contract.caller
                    ∷ [])
                  packed
                ∷ []))
      ⊎ ((e : LibError) × (lib.pack_entity did pid entity ≡ err e)
          × (r.0 ≡ err (EvmError.pack_failed e))
          × (r.1.module_state
              ≡ link contract.caller entity did
                  (after_packet env registered.channel registered.packet w.module_state))
          × (r.1.logs ≡ w.logs))

after_call :
    (c : Crypto) (env : Env) (lib : EvmLib) (contract : Contract) (args : List Arg) (w : World)
    (proof : EntityProof) (entity : ℕ)
    → IsCall args proof entity
    → Fails (entity_registry_register c env lib contract args w) w
      ⊎ IsRegisteredEntity c env lib contract args w
          (entity_registry_register c env lib contract args w)
unfolding entity_registry_register on_module add_log entity_topic emit
after_call c env lib contract args w proof entity i =
    rw
      (
        (bytes_argument_iff (codes "peerKeyPubkey") args 0 proof.peer_pubkey).1 i.peer_pubkey,
        (bytes_argument_iff (codes "peerKeySignature") args 1 proof.peer_signature).1
            i.peer_signature,
        (bytes_argument_iff (codes "nodeIdentityKeyPubkey") args 2 proof.node_pubkey).1
            i.node_pubkey,
        (bytes_argument_iff (codes "nodeIdentityKeySignature") args 3 proof.node_signature).1
            i.node_signature,
        (bytes_argument_iff (codes "message") args 4 proof.message).1 i.message,
        (entity_argument_iff args 5 entity).1 i.entity_given,
      )
      (elim (register_entity_cases c env proof entity contract.caller w.module_state) [
        | inl (e, q) ↦ inl (EvmError.keeper e, rw q refl)
        | inr (did, pid, done) ↦ inr (elim (Result-cases (lib.pack_entity did pid entity)) [
          | inl (e, q) ↦
              rw (done.result, q)
                (record {
                  proof = proof;
                  entity = entity;
                  call = i;
                  did = did;
                  pid = pid;
                  registered = done;
                  storage = refl;
                  outcome = inr (e, q, refl, refl, refl);
                })
          | inr (packed, q) ↦
              rw (done.result, q)
                (record {
                  proof = proof;
                  entity = entity;
                  call = i;
                  did = did;
                  pid = pid;
                  registered = done;
                  storage = refl;
                  outcome = inl (packed, q, refl, refl, refl);
                })
        ])
      ])

-- A call of `register` either fails and leaves the whole world as it was, or registers the caller in
-- the role and on the proof that its six arguments give: the module's state then holds the pair in
-- both indexes after the packet was sent. It writes no storage slot. It then adds one log and one
-- event with the DID and returns nothing, unless the data of this log cannot be packed, which fails.
pub entity_registry_register_cases :
    (c : Crypto) (env : Env) (lib : EvmLib) (contract : Contract) (args : List Arg) (w : World)
    → Fails (entity_registry_register c env lib contract args w) w
      ⊎ IsRegisteredEntity c env lib contract args w
          (entity_registry_register c env lib contract args w)
entity_registry_register_cases c env lib contract args w =
    elim (IsCall-cases c env lib contract args w) [
      | inl fails ↦ inl fails
      | inr (proof, entity, i) ↦ after_call c env lib contract args w proof entity i
    ]

-- ===== src/Sourcehub/System/Registry.antt =====
-- The registry of DIDs in every reachable state: one address has one DID in a role, one DID has one
-- address, and no registration is ever changed.
use shinzohub.Prelude.{ℕ, Bytes, some, [], ◌∷◌, ◌≡◌, ◌≢◌, ◌↔◌, refl, sym, ◌∙◌, arith}
use shinzohub.Sourcehub.Keys.{
  key_connection_id, key_host_connection_id, key_version, key_encoding, key_tx_type, key_policy_id,
}
use shinzohub.Sourcehub.State.{State}
use shinzohub.Sourcehub.Roles.{addr_role_key, did_role_key}
use shinzohub.Sourcehub.Crypto.{Crypto}
use shinzohub.Sourcehub.Keeper.{
  Keeper, set_controller_connection_id, set_host_connection_id, set_version, set_encoding,
  set_tx_type, set_policy_id, set_params,
}
use shinzohub.Sourcehub.Keeper.Laws.{head_or_zero, set_key-other}
use shinzohub.Sourcehub.Registration.{get_did_for_address_role}
use shinzohub.Sourcehub.Registration.Links.{IsLinked, link-IsLinked, link-keeps}
use shinzohub.Sourcehub.Genesis.{GenesisState, init_genesis}
use shinzohub.Sourcehub.System.{empty_state, Reach}
use shinzohub.Sourcehub.System.Invariants.{
  IsKept, Reach-keeps, controller-other, host-other, addr-head-ne, did-head-ne,
}

pub IsLinked-same :
    (s t : State)
    → ((a : Bytes) (r : ℕ) → t.store (addr_role_key a r) ≡ s.store (addr_role_key a r))
    → ((d : Bytes) (r : ℕ) → t.store (did_role_key d r) ≡ s.store (did_role_key d r))
    → IsLinked s.store
    → IsLinked t.store
IsLinked-same s t addr did h a r d na nd = (
  λ p. did d r ∙ (h a r d na nd).0 (sym (addr a r) ∙ p),
  λ p. addr a r ∙ (h a r d na nd).1 (sym (did d r) ∙ p),
)

pub IsLinked-kept : IsKept (λ s. IsLinked s.store)
IsLinked-kept = record {
  stable = record {
    calls = λ s cs h. h;
    events = λ s es h. h;
    controller = λ s id h.
        IsLinked-same s (set_controller_connection_id id s)
          (λ a r. controller-other id _ s (addr-head-ne 99 a r (omega arith)))
          (λ d r. controller-other id _ s (did-head-ne 99 d r (omega arith))) h;
    host = λ s id h.
        IsLinked-same s (set_host_connection_id id s)
          (λ a r. host-other id _ s (addr-head-ne 104 a r (omega arith)))
          (λ d r. host-other id _ s (did-head-ne 104 d r (omega arith))) h;
  };
  links = λ a d r s fa fd h. link-IsLinked a d r s fa fd h;
}

-- The genesis writes no entry of the two indexes.
pub init_genesis-index :
    (gs : GenesisState) (s : State) (j : Bytes)
    → ((n : ℕ) → n ≢ 97 → n ≢ 100 → head_or_zero j ≢ n)
    → (init_genesis gs s).store j ≡ s.store j
unfolding init_genesis set_controller_connection_id set_host_connection_id set_version set_encoding
    set_tx_type set_policy_id set_params
init_genesis-index gs s j ne = rw (
  set_key-other key_policy_id gs.policy_id j (ne 112 (omega arith) (omega arith)),
  set_key-other key_tx_type gs.tx_type j (ne 116 (omega arith) (omega arith)),
  set_key-other key_encoding gs.encoding j (ne 101 (omega arith) (omega arith)),
  set_key-other key_version gs.version j (ne 118 (omega arith) (omega arith)),
  set_key-other key_host_connection_id gs.host_connection_id j (ne 104 (omega arith) (omega arith)),
  set_key-other key_connection_id gs.controller_connection_id j (ne 99 (omega arith) (omega arith)),
)

pub genesis-addr :
    (gs : GenesisState) (s : State) (a : Bytes) (r : ℕ)
    → (init_genesis gs s).store (addr_role_key a r) ≡ s.store (addr_role_key a r)
genesis-addr gs s a r = init_genesis-index gs s _ (λ n n97 n100. addr-head-ne n a r n97)

genesis-did :
    (gs : GenesisState) (s : State) (d : Bytes) (r : ℕ)
    → (init_genesis gs s).store (did_role_key d r) ≡ s.store (did_role_key d r)
genesis-did gs s d r = init_genesis-index gs s _ (λ n n97 n100. did-head-ne n d r n100)

empty-IsLinked : IsLinked empty_state.store
empty-IsLinked a r d na nd = (λ p. cc, λ p. cc)

pub Reach-IsLinked :
    (c : Crypto) (text : Bytes) (k : Keeper) (gs : GenesisState) {t : State}
    → Reach c text k (init_genesis gs empty_state) t
    → IsLinked t.store
Reach-IsLinked c text k gs r =
    Reach-keeps (λ s. IsLinked s.store) IsLinked-kept c text k r
      (IsLinked-same empty_state (init_genesis gs empty_state) (genesis-addr gs empty_state)
        (genesis-did gs empty_state) empty-IsLinked)

-- In every state reached from any genesis, whatever the environment answers, the index from addresses
-- to DIDs and the index from DIDs to addresses are inverse to one another in every role: an address
-- that is not empty has a DID that is not empty exactly if the DID has the address.
pub registry_inverse :
    (c : Crypto) (text : Bytes) (k : Keeper) (gs : GenesisState) {t : State} (a d : Bytes) (r : ℕ)
    → Reach c text k (init_genesis gs empty_state) t
    → a ≢ []
    → d ≢ []
    → (t.store (addr_role_key a r) ≡ some d) ↔ (t.store (did_role_key d r) ≡ some a)
registry_inverse c text k gs a d r reach na nd = Reach-IsLinked c text k gs reach a r d na nd

-- What a found DID says of the store.
pub get_did-some :
    (a d : Bytes) (r : ℕ) (s : State)
    → get_did_for_address_role a r s ≡ some d
    → (s.store (addr_role_key a r) ≡ some d) × (d ≢ [])
unfolding get_did_for_address_role
get_did-some a d r s h = ground arith

pub some-get_did :
    (a d : Bytes) (r : ℕ) (s : State)
    → s.store (addr_role_key a r) ≡ some d
    → d ≢ []
    → get_did_for_address_role a r s ≡ some d
unfolding get_did_for_address_role
some-get_did a [] r s h ne = absurd (ne refl)
some-get_did a (x ∷ d) r s h ne = rw (h, get_did_for_address_role)

-- In every state reached from any genesis, two addresses that have the same DID in a role are one
-- address, if neither is empty.
pub registered_once :
    (c : Crypto) (text : Bytes) (k : Keeper) (gs : GenesisState) {t : State} (a b d : Bytes) (r : ℕ)
    → Reach c text k (init_genesis gs empty_state) t
    → a ≢ []
    → b ≢ []
    → get_did_for_address_role a r t ≡ some d
    → get_did_for_address_role b r t ≡ some d
    → a ≡ b
registered_once c text k gs {t} a b d r reach na nb p q =
    let linked = Reach-IsLinked c text k gs reach in
    let fa = get_did-some a d r t p in
    let fb = get_did-some b d r t q in
    cc ((linked a r d na fa.1).0 fa.0, (linked b r d nb fb.1).0 fb.0)

Keeps-entry : (a d : Bytes) (r : ℕ) → d ≢ [] → IsKept (λ s. s.store (addr_role_key a r) ≡ some d)
Keeps-entry a d r ne = record {
  stable = record {
    calls = λ s cs h. h;
    events = λ s es h. h;
    controller = λ s id h. controller-other id _ s (addr-head-ne 99 a r (omega arith)) ∙ h;
    host = λ s id h. host-other id _ s (addr-head-ne 104 a r (omega arith)) ∙ h;
  };
  links = λ b e t s fa fd h. link-keeps b e t s a d r fa ne h;
}

-- A registration is permanent: once an address has a DID in a role it has that DID in every later
-- state.
pub registration_permanent :
    (c : Crypto) (text : Bytes) (k : Keeper) {s t : State} (a d : Bytes) (r : ℕ)
    → Reach c text k s t
    → get_did_for_address_role a r s ≡ some d
    → get_did_for_address_role a r t ≡ some d
registration_permanent c text k {s} {t} a d r reach h =
    let f = get_did-some a d r s h in
    some-get_did a d r t
      (Reach-keeps (λ s. s.store (addr_role_key a r) ≡ some d) (Keeps-entry a d r f.1) c text k
        reach f.0)
      f.1

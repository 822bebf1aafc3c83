-- ===== src/App/Statics/Table.antt =====
-- The table of static precompiled contracts that app/precompiles.go makes.
use shinzohub.Prelude.{
  Bytes, some, List, [], ◌∷◌, ◌≡◌, ◌≢◌, ◌⊎◌, inl, inr, refl, sym, ap, subst, Result-cases, ◌∙◌, ok,
  and_then-ok, ok_injective, map_err, Any, All, same, same_refl, same→eq, ne→same, same→ne,
  Bool-cases, ◌++◌,
}
use shinzohub.App.Statics.{
  StaticLib, Contract, Contracts, OptionFn, entity_registry, view_registry, contract_address, put,
  put_all, Optionals, new_contracts, new_registries, apply_options, default_optionals,
  new_available_static_precompiles, view_registry_address, entity_registry_address, bech32_base_gas,
  view_registry_base_gas,
}

module _ (lib : StaticLib) where
  put_self : (c : Contract) (m : Contracts) → put lib c m (contract_address lib c) ≡ some c
  unfolding put
  put_self c m = rw (same_refl (contract_address lib c))

  put_other :
      (c : Contract) (m : Contracts) (a : Bytes) → a ≢ contract_address lib c → put lib c m a ≡ m a
  unfolding put
  put_other c m a ne = rw (ne→same a (contract_address lib c) ne)

  -- An entry of the finished table: the old one where no new contract has the address, and otherwise
  -- a new contract with this address.
  put_all-cases :
      (cs : List Contract) (m : Contracts) (a : Bytes)
      → (All (λ c. a ≢ contract_address lib c) cs × (put_all lib cs m a ≡ m a))
        ⊎ ((c : Contract) × Any (λ x. c ≡ x) cs
            × (a ≡ contract_address lib c)
            × (put_all lib cs m a ≡ some c))
  unfolding put_all
  put_all-cases [] m a = inl (tt, refl)
  put_all-cases (c ∷ cs) m a = elim (put_all-cases cs (put lib c m) a) [
    | inr (d, i, e, q) ↦ inr (d, inr i, e, q)
    | inl (ne, q) ↦ elim (Bool-cases (same a (contract_address lib c))) [
      | inl s ↦
          inr
            (c, inl refl, same→eq _ _ s, q ∙ ap (λ x. put lib c m x) (same→eq _ _ s) ∙ put_self c m)
      | inr s ↦ inl ((same→ne _ _ s, ne), q ∙ put_other c m a (same→ne _ _ s))
    ]
  ]

  put_all-append :
      (cs ds : List Contract) (m : Contracts)
      → put_all lib (cs ++ ds) m ≡ put_all lib ds (put_all lib cs m)
  unfolding put_all
  put_all-append [] ds m = refl
  put_all-append (c ∷ cs) ds m = put_all-append cs ds (put lib c m)

  new_registries-ok :
      (rs : List Contract)
      → new_registries lib ≡ ok rs
      → rs ≡ view_registry view_registry_base_gas ∷ entity_registry view_registry_base_gas ∷ []
  unfolding new_registries
  new_registries-ok rs h = elim (Result-cases lib.load_view_abi) [
    | inl (e, p) ↦ absurd (cc (rw p at h))
    | inr (u, p) ↦ elim (Result-cases lib.load_entity_abi) [
      | inl (e, q) ↦ absurd (cc (rw (p, q) at h))
      | inr (v, q) ↦ cc (rw (p, q) at h)
    ]
  ]

  -- The two registries come last.
  new_contracts-ok :
      (o : Optionals) (cs : List Contract)
      → new_contracts lib o ≡ ok cs
      → (front : List Contract) × (cs
          ≡ front
            ++ view_registry view_registry_base_gas ∷ entity_registry view_registry_base_gas ∷ [])
  unfolding new_contracts
  new_contracts-ok o cs h =
      let (bech32, p₁, h₁) = and_then-ok (map_err _ (lib.new_bech32 bech32_base_gas)) _ cs h in
      let (staking, p₂, h₂) = and_then-ok (map_err _ (lib.new_staking o.address_codec)) _ cs h₁ in
      let (dist, p₃, h₃) = and_then-ok (map_err _ (lib.new_distribution o.address_codec)) _ cs h₂ in
      let (ics20, p₄, h₄) = and_then-ok (map_err _ lib.new_ics20) _ cs h₃ in
      let (bank, p₅, h₅) = and_then-ok (map_err _ lib.new_bank) _ cs h₄ in
      let (gov, p₆, h₆) = and_then-ok (map_err _ (lib.new_gov o.address_codec)) _ cs h₅ in
      let (slashing, p₇, h₇) =
        and_then-ok (map_err _ (lib.new_slashing o.validator_addr_codec o.consensus_addr_codec)) _
          cs h₆ in
      let (rs, p₈, h₈) = and_then-ok (new_registries lib) _ cs h₇ in
      let front = bech32 ∷ lib.p256 ∷ staking ∷ dist ∷ ics20 ∷ bank ∷ gov ∷ slashing ∷ [] in
      (front, sym (ok_injective _ _ h₈) ∙ ap (λ l. front ++ l) (new_registries-ok rs p₈))

-- The contracts that were made, and the table of them.
pub record IsTable (lib : StaticLib) (opts : List OptionFn) (table : Contracts) : Type 0 where
  pub contracts : List Contract
  pub made : new_contracts lib (apply_options opts (default_optionals lib)) ≡ ok contracts
  pub entries :
      (a : Bytes)
      → (All (λ c. a ≢ contract_address lib c) contracts × (table a ≡ lib.contracts_berlin a))
        ⊎ ((c : Contract) × Any (λ x. c ≡ x) contracts
            × (a ≡ contract_address lib c)
            × (table a ≡ some c))
  pub entity : table (lib.hex_to_address entity_registry_address) ≡ some (entity_registry 0)
  pub view :
      lib.hex_to_address view_registry_address ≢ lib.hex_to_address entity_registry_address
      → table (lib.hex_to_address view_registry_address) ≡ some (view_registry 0)

-- A table of the static precompiled contracts that is made has at each address either a contract that
-- was made with this address, or, if none was, the Ethereum contract of the library's table; and at
-- the two registries' addresses, if they differ, it has the registries, which ask for no gas of their
-- own, whatever the library's contracts and addresses are.
pub new_available_static_precompiles-IsTable :
    (lib : StaticLib) (opts : List OptionFn) (table : Contracts)
    → new_available_static_precompiles lib opts ≡ ok table
    → IsTable lib opts table
unfolding new_available_static_precompiles put_all
new_available_static_precompiles-IsTable lib opts table h =
    let (cs, made, q) =
      and_then-ok (new_contracts lib (apply_options opts (default_optionals lib))) _ table h in
    let (front, split) = new_contracts-ok lib _ cs made in
    let whole : put_all lib cs lib.contracts_berlin ≡ table = ok_injective _ _ q in
    let last : (a : Bytes)
        → table a
          ≡ put lib (entity_registry 0)
              (put lib (view_registry 0) (put_all lib front lib.contracts_berlin)) a =
      λ a.
        sym (ap (λ t. t a) whole)
        ∙ ap (λ l. put_all lib l lib.contracts_berlin a) split
        ∙ ap (λ t. t a) (put_all-append lib front _ lib.contracts_berlin) in
    record {
      contracts = cs;
      made = made;
      entries = λ a.
          subst
            (λ t.
              (All (λ c. a ≢ contract_address lib c) cs × (t a ≡ lib.contracts_berlin a))
              ⊎ ((c : Contract) × Any (λ x. c ≡ x) cs
                  × (a ≡ contract_address lib c)
                  × (t a ≡ some c)))
            whole (put_all-cases lib cs lib.contracts_berlin a);
      entity = last _ ∙ put_self lib (entity_registry 0) _;
      view = λ ne.
          last _ ∙ put_other lib (entity_registry 0) _ _ ne ∙ put_self lib (view_registry 0) _;
    }

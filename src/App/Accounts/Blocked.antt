-- ===== src/App/Accounts/Blocked.antt =====
-- Which addresses `BlockedAddresses` of app/app.go blocks.
use shinzohub.Prelude.{
  refl, Bytes, true, false, List, [], ◌∷◌, ◌++◌, map, ◌≡◌, ◌≢◌, ◌↔◌, ◌⊎◌, inl, inr, Any,
  Any-witness, witness-Any, Any-append, codes, same, same→eq, same→ne, Bool-cases, if◌then◌else◌,
}
use shinzohub.App.Statics.{StaticLib, get_available_static_precompiles}
use shinzohub.App.Accounts.{
  AccountLib, Flags, macc_perms, set_flags, delete_flag, blocked_addresses,
}

-- Every flag that a list sets, beside those that were set before.
set_flags_iff :
    (f : Bytes → Bytes) (xs : List Bytes) (flags : Flags) (a : Bytes)
    → (set_flags f xs flags a ≡ true) ↔ (Any (λ x. a ≡ f x) xs ⊎ flags a ≡ true)
unfolding set_flags
set_flags_iff f [] flags a = (λ p. inr p, λ q. elim q [ inl b ↦ absurd b | inr p ↦ p ])
set_flags_iff f (x ∷ xs) flags a =
    let rest = set_flags_iff f xs (λ b. if same b (f x) then true else flags b) a in
    elim (Bool-cases (same a (f x))) [
      | inl e ↦ (λ p. inl (inl (same→eq _ _ e)), λ q. rest.1 (inr (rw e)))
      | inr e ↦ (
        λ p. elim (rest.0 p) [ inl m ↦ inl (inr m) | inr b ↦ inr (rw e at b) ],
        λ q. elim q [
          | inl (inl y) ↦ absurd (same→ne _ _ e y)
          | inl (inr m) ↦ rest.1 (inl m)
          | inr b ↦ rest.1 (inr (rw e b))
        ],
      )
    ]

delete_flag_iff :
    (x : Bytes) (flags : Flags) (a : Bytes)
    → (delete_flag x flags a ≡ true) ↔ ((a ≢ x) × (flags a ≡ true))
unfolding delete_flag
delete_flag_iff x flags a = elim (Bool-cases (same a x)) [
  | inl e ↦ (λ p. absurd (cc (rw e at p)), λ q. absurd (q.0 (same→eq a x e)))
  | inr e ↦ (λ p. (same→ne a x e, rw e at p), λ q. rw e q.1)
]

-- The names of the module accounts.
abbrev pub account_names : AccountLib → List Bytes
account_names lib =
    lib.fee_collector
    ∷ lib.distr
    ∷ lib.mint
    ∷ lib.bonded_pool
    ∷ lib.not_bonded_pool
    ∷ lib.gov
    ∷ lib.nft
    ∷ lib.transfer
    ∷ lib.ica
    ∷ lib.evm
    ∷ lib.feemarket
    ∷ lib.erc20
    ∷ codes "sourcehub"
    ∷ []

macc_perms-account_names : (lib : AccountLib) → map (λ e. e.0) (macc_perms lib) ≡ account_names lib
macc_perms-account_names lib = refl

-- The address of a module's account, other than the governance account.
abbrev pub IsModuleAccount : AccountLib → Bytes → Type 0
IsModuleAccount lib a =
    (a ≢ lib.module_address lib.gov) × Any (λ n. a ≡ lib.module_address n) (account_names lib)

-- The address of a contract of the library's list, of the view registry or of a precompiled Ethereum
-- contract.
abbrev pub IsContractAddress : AccountLib → StaticLib → Bytes → Type 0
IsContractAddress lib statics a =
    Any (λ x. a ≡ lib.eth_hex_to_cosmos x) statics.available_static_precompiles
    ⊎ (a ≡ lib.eth_hex_to_cosmos (codes "0x0000000000000000000000000000000000000210"))
    ⊎ Any (λ x. a ≡ lib.eth_hex_to_cosmos x) lib.addresses_berlin

contracts_iff :
    (lib : AccountLib) (statics : StaticLib) (a : Bytes)
    → Any
        (λ x. a ≡ lib.eth_hex_to_cosmos x)
        (get_available_static_precompiles statics ++ lib.addresses_berlin)
      ↔ IsContractAddress lib statics a
unfolding get_available_static_precompiles
contracts_iff lib statics a =
    let P : Bytes → Type 0 = λ x. a ≡ lib.eth_hex_to_cosmos x in
    let view = codes "0x0000000000000000000000000000000000000210" in
    let known = statics.available_static_precompiles in
    let outer = Any-append P (known ++ view ∷ []) lib.addresses_berlin in
    let inner = Any-append P known (view ∷ []) in
    (
      λ h. elim (outer.0 h) [
        | inr m ↦ inr (inr m)
        | inl m ↦ elim (inner.0 m) [
          | inl i ↦ inl i
          | inr (inl v) ↦ inr (inl v)
          | inr (inr v) ↦ absurd v
        ]
      ],
      λ h. elim h [
        | inl i ↦ outer.1 (inl (inner.1 (inl i)))
        | inr (inl v) ↦ outer.1 (inl (inner.1 (inr (inl v))))
        | inr (inr m) ↦ outer.1 (inr m)
      ],
    )

-- Two lists with the same members have the same addresses.
same_members :
    (xs ys : List Bytes) (P : Bytes → Type 0)
    → ((n : Bytes) → Any (λ x. n ≡ x) xs → Any (λ y. n ≡ y) ys)
    → Any P xs
    → Any P ys
same_members xs ys P sub h = let (x, m, p) = Any-witness P xs h in witness-Any P ys x (sub x m) p

-- In whatever order Go visits the map of the module accounts, an address is blocked exactly if it is
-- that of a module account and not that of the governance account, or that of a contract of the
-- library's list, of the view registry, or of a precompiled Ethereum contract.
pub blocked_addresses_iff :
    (lib : AccountLib) (statics : StaticLib) (accounts : List Bytes)
    → ((n : Bytes) → Any (λ x. n ≡ x) accounts ↔ Any (λ x. n ≡ x) (map (λ e. e.0) (macc_perms lib)))
    → (a : Bytes)
    → (blocked_addresses lib statics accounts a ≡ true)
      ↔ (IsModuleAccount lib a ⊎ IsContractAddress lib statics a)
unfolding blocked_addresses
blocked_addresses_iff lib statics accounts order a =
    let contracts = get_available_static_precompiles statics ++ lib.addresses_berlin in
    let accs = set_flags lib.module_address accounts (λ b. false) in
    let outer =
      set_flags_iff lib.eth_hex_to_cosmos contracts (delete_flag (lib.module_address lib.gov) accs)
        a in
    let del = delete_flag_iff (lib.module_address lib.gov) accs a in
    let inner = set_flags_iff lib.module_address accounts (λ b. false) a in
    (
      λ p. elim (outer.0 p) [
        | inl m ↦ inr ((contracts_iff lib statics a).0 m)
        | inr d ↦ inl (
          (del.0 d).0,
          elim (inner.0 (del.0 d).1) [
            | inl m ↦ same_members accounts (account_names lib) _ (λ n. (order n).0) m
            | inr q ↦ absurd (cc q)
          ],
        )
      ],
      λ q. elim q [
        | inr m ↦ outer.1 (inl ((contracts_iff lib statics a).1 m))
        | inl (ne, m) ↦ outer.1 (
            inr (
              del.1 (
                ne,
                inner.1 (inl (same_members (account_names lib) accounts _ (λ n. (order n).1) m)),
              )))
      ],
    )

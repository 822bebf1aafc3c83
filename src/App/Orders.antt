-- ===== src/App/Orders.antt =====
-- The orders in which the modules run at the begin and the end of a block and at genesis, which
-- `NewChainApp` of app/app.go sets, with the notes on them.
use shinzohub.Prelude.{List, [], ◌∷◌, ◌≡◌, ◌⊎◌, inl, inr, refl, Any}

pub data ChainModule : Type 0 where
  auth bank capability distr staking slashing gov mint evm feemarket erc20 crisis : ChainModule
  genutil evidence authz feegrant nft group params upgrade vesting consensus_param : ChainModule
  circuit transfer ibc ica sourcehub : ChainModule

abbrev pub order_pre_blockers : List ChainModule
order_pre_blockers = auth ∷ upgrade ∷ []

abbrev pub order_begin_blockers : List ChainModule
order_begin_blockers =
    mint ∷ erc20 ∷ feemarket ∷ evm ∷ distr ∷ slashing ∷ evidence ∷ staking ∷ genutil ∷ authz
    ∷ capability ∷ transfer ∷ ibc ∷ ica ∷ sourcehub ∷ []

abbrev pub order_end_blockers : List ChainModule
order_end_blockers =
    crisis ∷ gov ∷ staking ∷ genutil ∷ feegrant ∷ group ∷ evm ∷ erc20 ∷ feemarket ∷ capability
    ∷ transfer ∷ ibc ∷ ica ∷ sourcehub ∷ []

abbrev pub genesis_module_order : List ChainModule
genesis_module_order =
    capability ∷ auth ∷ bank ∷ distr ∷ staking ∷ slashing ∷ gov ∷ mint ∷ evm ∷ feemarket ∷ erc20
    ∷ crisis ∷ genutil ∷ evidence ∷ authz ∷ feegrant ∷ nft ∷ group ∷ params ∷ upgrade ∷ vesting
    ∷ consensus_param ∷ circuit ∷ transfer ∷ ibc ∷ ica ∷ sourcehub ∷ []

-- The module `a` stands in the list, and `b` behind it.
abbrev pub Precedes : ChainModule → ChainModule → List ChainModule → Type 0
Precedes a b [] = ⊥
Precedes a b (x ∷ xs) = ((a ≡ x) × Any (λ y. b ≡ y) xs) ⊎ Precedes a b xs

-- The notes of the source: the fee market begins a block before the EVM, the distribution before the
-- slashing, and capability before the modules of IBC; at genesis capability comes first, and staking,
-- auth and the fee market come before genutil.
orders_follow_notes :
    Precedes feemarket evm order_begin_blockers
    × Precedes distr slashing order_begin_blockers
    × Precedes capability transfer order_begin_blockers
    × Precedes capability ibc order_begin_blockers
    × Precedes capability ica order_begin_blockers
    × Precedes staking genutil genesis_module_order
    × Precedes auth genutil genesis_module_order
    × Precedes feemarket genutil genesis_module_order
orders_follow_notes = (
  inr (inr (inl (refl, inl refl))),
  inr (inr (inr (inr (inl (refl, inl refl))))),
  inr (inr (inr (inr (inr (inr (inr (inr (inr (inr (inl (refl, inl refl))))))))))),
  inr (inr (inr (inr (inr (inr (inr (inr (inr (inr (inl (refl, inr (inl refl)))))))))))),
  inr (inr (inr (inr (inr (inr (inr (inr (inr (inr (inl (refl, inr (inr (inl refl))))))))))))),
  inr (inr (inr (inr (inl (refl, inr (inr (inr (inr (inr (inr (inr (inl refl)))))))))))),
  inr (inl (refl, inr (inr (inr (inr (inr (inr (inr (inr (inr (inr (inl refl)))))))))))),
  inr (inr (inr (inr (inr (inr (inr (inr (inr (inl (refl, inr (inr (inl refl)))))))))))),
)

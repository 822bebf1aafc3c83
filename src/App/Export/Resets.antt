-- ===== src/App/Export/Resets.antt =====
-- What `prepForZeroHeightGenesis` writes, whether it succeeds or stops on the way.
use shinzohub.Prelude.{
  ℕ, Bytes, true, none, some, List, [], ◌∷◌, ◌≡◌, ◌≢◌, ◌↔◌, ◌⊎◌, refl, ok, Result, All, All-append,
  Any, Keeps, Keeps-bind, subst, sym, ◌>>=◌,
}
use shinzohub.App.Export.{
  Keepers, Validator, KeeperOp, Call, Calls, Stop, Run, Visits, call, call_or, must, for_each,
  iterate, assert_invariants, delete_slash_events, delete_historical_rewards,
  apply_validator_updates, withdraw_commission, after_validator_created, withdraw_rewards,
  before_delegation_created, after_delegation_modified, set_fee_pool, set_redelegation,
  set_unbonding, set_validator, set_signing_info,
}

module _ (P : Calls → Type 0) where
  pub for_each-Keeps :
      {A : Type 0} (f : A → Run (Unit {0})) (xs : List A)
      → ((x : A) → Keeps P (f x))
      → Keeps P (for_each f xs)
  unfolding for_each
  for_each-Keeps f [] h = λ s p. p
  for_each-Keeps f (x ∷ xs) h = Keeps-bind P (f x) _ (h x) (λ u. for_each-Keeps f xs h)

  pub iterate-Keeps :
      {A : Type 0} (f : A → Run (Unit {0})) (v : Visits A)
      → ((x : A) → Keeps P (f x))
      → Keeps P (iterate f v)
  unfolding iterate
  iterate-Keeps f (xs, none) h = for_each-Keeps f xs h
  iterate-Keeps f (xs, some e) h =
      Keeps-bind P (for_each f xs) _ (for_each-Keeps f xs h) (λ u s p. p)

-- An address is jailed exactly if there is a list of allowed addresses and it is not in it.
abbrev pub IsForbidden : Keepers → List Bytes → Bytes → Type 0
IsForbidden k allowed addr = (allowed ≢ []) × (Any (λ a. k.val_to_bech32 addr ≡ a) allowed → ⊥)

-- A validator as it is written back: it is one that the keeper returned for the address, with height
-- 0, and jailed if it was or if it must be.
pub record IsWritten (k : Keepers) (allowed : List Bytes) (addr : Bytes) (v : Validator)
    : Type 0 where
  pub read_at : Calls
  pub before : Validator
  pub read : k.get_validator read_at addr ≡ ok before
  pub height : v.unbonding_height ≡ 0
  pub jailed : (v.jailed ≡ true) ↔ (before.jailed ≡ true ⊎ IsForbidden k allowed addr)
  pub others : v.other_fields ≡ before.other_fields

module _ (k : Keepers) (allowed : List Bytes) where
  abbrev pub IsReset : Call → Type 0
  IsReset c = elim c.op [
    | assert_invariants ↦ c.height ≡ k.last_block_height
    | delete_slash_events ↦ c.height ≡ 0
    | delete_historical_rewards ↦ c.height ≡ 0
    | apply_validator_updates ↦ c.height ≡ k.last_block_height
    | withdraw_commission v ↦ c.height ≡ 0
    | after_validator_created v ↦ c.height ≡ 0
    | withdraw_rewards d v ↦ c.height ≡ 0
    | before_delegation_created d v ↦ c.height ≡ 0
    | after_delegation_modified d v ↦ c.height ≡ 0
    | set_fee_pool p ↦ c.height ≡ 0
    | set_redelegation r ↦
        (c.height ≡ k.last_block_height) × All (λ e. e.creation_height ≡ 0) r.entries
    | set_unbonding u ↦
        (c.height ≡ k.last_block_height) × All (λ e. e.creation_height ≡ 0) u.entries
    | set_validator a v ↦ (c.height ≡ k.last_block_height) × IsWritten k allowed a v
    | set_signing_info a i ↦ (c.height ≡ k.last_block_height) × (i.start_height ≡ 0)
  ]

  abbrev pub AllReset : Calls → Type 0
  AllReset t = All IsReset t

  pub call-AllReset :
      (h : ℕ) (op : KeeperOp)
      → IsReset (record { height = h; op = op })
      → Keeps {E = Stop} AllReset (call k h op)
  unfolding call
  call-AllReset h op r t p = All-append IsReset t _ p (r, tt)

  pub call_or-AllReset :
      (stop : Bytes → Stop) (h : ℕ) (op : KeeperOp)
      → IsReset (record { height = h; op = op })
      → Keeps AllReset (call_or stop k h op)
  unfolding call_or
  call_or-AllReset stop h op r =
      Keeps-bind AllReset (call k h op) _ (call-AllReset h op r) (λ x t p. p)

  -- A read, and then what follows.
  pub then-Keeps :
      {A B : Type 0} (m : Run A) (f : A → Run B)
      → ((t : Calls) → (m t).1 ≡ t)
      → ((a : A) → Keeps AllReset (f a))
      → Keeps AllReset (m >>= f)
  then-Keeps m f same_state h =
      Keeps-bind AllReset m f (λ t p. subst AllReset (sym (same_state t)) p) h

  pub must-Keeps :
      {A B : Type 0} (r : Result Bytes A) (f : A → Run B)
      → ((a : A) → Keeps AllReset (f a))
      → Keeps AllReset (must r >>= f)
  must-Keeps r f h = then-Keeps (must r) f (λ t. refl) h

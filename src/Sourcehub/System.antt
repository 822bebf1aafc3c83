-- ===== src/Sourcehub/System.antt =====
-- The module as a transition system. Other modules' transactions, and calls whose writes the chain
-- rolls back, are no steps: they leave the module's state alone.
pub mod Invariants
pub mod Registry
pub mod Policy
pub mod Export
pub mod Refinement
pub mod Acceptance
use shinzohub.Prelude.{ℕ, Bytes, Option, none, [], ◌≡◌, Result}
use shinzohub.Sourcehub.State.{State, Env, Error, Params}
use shinzohub.Sourcehub.Crypto.{Crypto}
use shinzohub.Sourcehub.Keeper.{Keeper}
use shinzohub.Sourcehub.Registration.{EntityProof, register_entity, register_object}
use shinzohub.Sourcehub.Server.{Msg, handle}

-- The store of a chain before its genesis.
abbrev pub empty_state : State
empty_state = record { store = λ k. none; params = none; calls = []; events = [] }

-- Each call runs in an environment of its own, and may fail.
pub data Step (c : Crypto) (text : Bytes) (k : Keeper) (s : State) : State → Type 0 where
  entity :
      {t : State} (env : Env) (p : EntityProof) (r : ℕ) (a : Bytes)
      (res : Result Error (Bytes × Bytes))
      → register_entity c env p r a s ≡ (res, t)
      → Step c text k s t
  object :
      {t : State} (env : Env) (id : Bytes) (res : Result Error (Unit {0}))
      → register_object env id s ≡ (res, t)
      → Step c text k s t
  message :
      {t : State} (env : Env) (m : Msg) (res : Result Error (Unit {0}))
      → handle text k env m s ≡ (res, t)
      → Step c text k s t

pub data Reach (c : Crypto) (text : Bytes) (k : Keeper) (s : State) : State → Type 0 where
  here : Reach c text k s s
  next : {t u : State} → Reach c text k s t → Step c text k t u → Reach c text k s u

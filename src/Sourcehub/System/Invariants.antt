-- ===== src/Sourcehub/System/Invariants.antt =====
-- How a property of the state becomes an invariant of every step, and the store entries that the
-- steps leave alone.
use shinzohub.Prelude.{ℕ, Bytes, false, ◌≡◌, ◌≢◌, inl, inr, ap, subst, sym, ◌∙◌, arith}
use shinzohub.Sourcehub.State.{State}
use shinzohub.Sourcehub.Roles.{addr_role_key, did_role_key}
use shinzohub.Sourcehub.Roles.KeyLaws.{addr_role_key-head, did_role_key-head}
use shinzohub.Sourcehub.Crypto.{Crypto}
use shinzohub.Sourcehub.Keeper.{Keeper, set_controller_connection_id, set_host_connection_id}
use shinzohub.Sourcehub.Keeper.Laws.{head_or_zero, set_key-other}
use shinzohub.Sourcehub.Registration.{holds_other, link}
use shinzohub.Sourcehub.Registration.Outcome.{register_entity_cases}
use shinzohub.Sourcehub.Server.Frame.{IsStable, handle-keeps, register_object-keeps}
use shinzohub.Sourcehub.System.{Step, entity, object, message, Reach, here, next}

pub record IsKept (P : State → Type 0) : Type 0 where
  pub stable : IsStable P
  pub links :
      (a d : Bytes) (r : ℕ) (s : State)
      → holds_other (s.store (addr_role_key a r)) d ≡ false
      → holds_other (s.store (did_role_key d r)) a ≡ false
      → P s
      → P (link a r d s)

module _ (P : State → Type 0) (kept : IsKept P) (c : Crypto) (text : Bytes) (k : Keeper) where
  pub Step-keeps : {s t : State} → Step c text k s t → P s → P t
  Step-keeps {s} (entity env p r a res q) h = elim (register_entity_cases c env p r a s) [
    | inl (e, f) ↦ subst P (ap (λ x. x.1) (sym f ∙ q)) h
    | inr (did, pid, d) ↦
        subst P (ap (λ x. x.1) (sym d.result ∙ q))
          (kept.links a did r _ d.free_addr d.free_did (kept.stable.calls s _ h))
  ]
  Step-keeps {s} (object env id res q) h =
      subst P (ap (λ x. x.1) q) (register_object-keeps P kept.stable env id s h)
  Step-keeps {s} (message env m res q) h =
      subst P (ap (λ x. x.1) q) (handle-keeps P kept.stable text k env m s h)

  pub Reach-keeps : {s t : State} → Reach c text k s t → P s → P t
  Reach-keeps here h = h
  Reach-keeps (next r st) h = Step-keeps st (Reach-keeps r h)

-- The connection ids stand under keys that begin with `c` and `h`.
pub controller-other :
    (id j : Bytes) (s : State)
    → head_or_zero j ≢ 99
    → (set_controller_connection_id id s).store j ≡ s.store j
unfolding set_controller_connection_id
controller-other id j s ne = set_key-other _ id j ne s

pub host-other :
    (id j : Bytes) (s : State)
    → head_or_zero j ≢ 104
    → (set_host_connection_id id s).store j ≡ s.store j
unfolding set_host_connection_id
host-other id j s ne = set_key-other _ id j ne s

pub addr-head-ne : (n : ℕ) (a : Bytes) (r : ℕ) → n ≢ 97 → head_or_zero (addr_role_key a r) ≢ n
addr-head-ne n a r ne = omega (arith, addr_role_key-head a r)

pub did-head-ne : (n : ℕ) (d : Bytes) (r : ℕ) → n ≢ 100 → head_or_zero (did_role_key d r) ≢ n
did-head-ne n d r ne = omega (arith, did_role_key-head d r)

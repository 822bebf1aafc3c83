-- ===== src/Sourcehub/System/Refinement.antt =====
-- A view of the registration indexes of x/sourcehub/keeper/keeper.go: a registry that is a function from
-- addresses and roles to DIDs, and in which a pair may be claimed exactly if neither its address nor
-- its DID has another partner in the role.
use shinzohub.Prelude.{
  ℕ, Bytes, false, Option, none, some, [], ◌∷◌, ◌≡◌, ◌≢◌, ◌↔◌, refl, sym, subst, fun_ext, arith,
  same, ◌==◌, ◌&&◌, if◌then◌else◌, is_empty, ok, eq→same,
}
use shinzohub.Sourcehub.State.{State}
use shinzohub.Sourcehub.Roles.{addr_role_key, did_role_key}
use shinzohub.Sourcehub.Roles.KeyLaws.{bytes_equal-eq-same}
use shinzohub.Sourcehub.Crypto.{Crypto}
use shinzohub.Sourcehub.Keeper.{Keeper}
use shinzohub.Sourcehub.Registration.{holds_other, check_links, link, get_did_for_address_role}
use shinzohub.Sourcehub.Registration.Links.{IsLinked, link-addr, holds_other-false}
use shinzohub.Sourcehub.Registration.Outcome.{check_links-ok}
use shinzohub.Sourcehub.Registration.Replay.{check_links-free}
use shinzohub.Sourcehub.Genesis.{GenesisState, init_genesis}
use shinzohub.Sourcehub.System.{empty_state, Reach}
use shinzohub.Sourcehub.System.Invariants.{
  IsKept, Reach-keeps, controller-other, host-other, addr-head-ne,
}
use shinzohub.Sourcehub.System.Registry.{IsLinked-kept, Reach-IsLinked, get_did-some, some-get_did}

-- The DID of each address in each role.
abbrev pub Registry : Type 0
Registry = Bytes → ℕ → Option Bytes

-- What the module's state says of the registry.
abbrev pub dids_of : State → Registry
dids_of s = λ a r. get_did_for_address_role a r s

-- An address may claim a DID in a role if it has no other one and no other address has it.
pub record IsClaimable (v : Registry) (a d : Bytes) (r : ℕ) : Type 0 where
  pub own : (e : Bytes) → v a r ≡ some e → e ≡ d
  pub free : (b : Bytes) → b ≢ [] → v b r ≡ some d → b ≡ a

-- An empty DID counts as none.
abbrev pub assign : Bytes → Bytes → ℕ → Registry → Registry
assign a d r v =
    λ b t. if same b a && (t == r) then (if is_empty d then none else some d) else v b t

-- The registries that claims lead to from the registry `v`.
pub data Claims (v : Registry) : Registry → Type 0 where
  unclaimed : Claims v v
  claim :
      {w : Registry} (a d : Bytes) (r : ℕ)
      → Claims v w
      → IsClaimable w a d r
      → Claims v (assign a d r w)

get_did-congr :
    (a : Bytes) (r : ℕ) (s t : State)
    → t.store (addr_role_key a r) ≡ s.store (addr_role_key a r)
    → get_did_for_address_role a r t ≡ get_did_for_address_role a r s
unfolding get_did_for_address_role
get_did-congr a r s t p = rw (get_did_for_address_role, p)

dids_of-congr :
    (s t : State)
    → ((a : Bytes) (r : ℕ) → t.store (addr_role_key a r) ≡ s.store (addr_role_key a r))
    → dids_of t ≡ dids_of s
dids_of-congr s t h = fun_ext λ a. fun_ext λ r. get_did-congr a r s t (h a r)

dids_of-link : (a d : Bytes) (r : ℕ) (s : State) → dids_of (link a r d s) ≡ assign a d r (dids_of s)
unfolding get_did_for_address_role
dids_of-link a d r s = fun_ext λ b. fun_ext λ t. ground (arith, link-addr a d b r t s)

-- The checks on the two slots imply that the pair may be claimed.
pub free-IsClaimable :
    (a d : Bytes) (r : ℕ) (s : State)
    → IsLinked s.store
    → holds_other (s.store (addr_role_key a r)) d ≡ false
    → holds_other (s.store (did_role_key d r)) a ≡ false
    → IsClaimable (dids_of s) a d r
free-IsClaimable a d r s linked fa fd = record {
  own = λ e p. let (q, ne) = get_did-some a e r s p in holds_other-false _ e d fa q ne;
  free = λ b nb p.
      let (q, ne) = get_did-some b d r s p in
      holds_other-false _ b a fd ((linked b r d nb ne).0 q) nb;
}

holds_other-free :
    (slot : Option Bytes) (w : Bytes)
    → ((x : Bytes) → x ≢ [] → slot ≡ some x → x ≡ w)
    → holds_other slot w ≡ false
unfolding holds_other
holds_other-free none w h = refl
holds_other-free (some []) w h = refl
holds_other-free (some (y ∷ ys)) w h =
    let e : (y ∷ ys) ≡ w = h (y ∷ ys) (λ p. cc) refl in
    rw (bytes_equal-eq-same (y ∷ ys) w, eq→same (y ∷ ys) w e)

pub IsClaimable-free :
    (a d : Bytes) (r : ℕ) (s : State)
    → IsLinked s.store
    → d ≢ []
    → IsClaimable (dids_of s) a d r
    → check_links a r d s ≡ (ok tt, s)
IsClaimable-free a d r s linked nd c =
    check_links-free a r d s (holds_other-free _ d (λ x nx q. c.own x (some-get_did a x r s q nx)))
      (holds_other-free _ a
        (λ x nx q. c.free x nx (some-get_did x d r s ((linked x r d nx nd).1 q) nd)))

-- In every state reached from any genesis, the check that `RegisterEntity` makes of the two indexes
-- passes exactly if the address has no other DID in the role and no other address, among all that are
-- not empty, has the DID there, if the DID is not empty.
pub check_links_iff :
    (c : Crypto) (text : Bytes) (k : Keeper) (gs : GenesisState) {t : State} (a d : Bytes) (r : ℕ)
    → Reach c text k (init_genesis gs empty_state) t
    → d ≢ []
    → (check_links a r d t ≡ (ok tt, t)) ↔ IsClaimable (dids_of t) a d r
check_links_iff c text k gs {t} a d r reach nd =
    let linked = Reach-IsLinked c text k gs reach in
    (
      λ h. let (fa, fd) = check_links-ok a r d t h in free-IsClaimable a d r t linked fa fd,
      IsClaimable-free a d r t linked nd,
    )

Claims-same : (v w : Registry) {u : Registry} → w ≡ u → Claims v u → Claims v w
Claims-same v w p h = subst (Claims v) (sym p) h

module _ (s : State) where
  -- A state with inverse indexes, whose registry claims lead to from that of `s`.
  abbrev IsClaimed : State → Type 0
  IsClaimed t = IsLinked t.store × Claims (dids_of s) (dids_of t)

  IsClaimed-kept : IsKept IsClaimed
  IsClaimed-kept = record {
    stable = record {
      calls = λ t cs h. (h.0, Claims-same _ _ (dids_of-congr t _ (λ a r. refl)) h.1);
      events = λ t es h. (h.0, Claims-same _ _ (dids_of-congr t _ (λ a r. refl)) h.1);
      controller = λ t id h. (
        IsLinked-kept.stable.controller t id h.0,
        Claims-same _ _
            (dids_of-congr t _ (λ a r. controller-other id _ t (addr-head-ne 99 a r (omega arith))))
            h.1,
      );
      host = λ t id h. (
        IsLinked-kept.stable.host t id h.0,
        Claims-same _ _
            (dids_of-congr t _ (λ a r. host-other id _ t (addr-head-ne 104 a r (omega arith)))) h.1,
      );
    };
    links = λ a d r t fa fd h. (
      IsLinked-kept.links a d r t fa fd h.0,
      Claims-same _ _ (dids_of-link a d r t) (claim a d r h.1 (free-IsClaimable a d r t h.0 fa fd)),
    );
  }

-- The module refines the abstract registry: from a state reached from any genesis, whatever calls
-- succeed or fail in whatever environments, the registry that the store holds at the end comes from
-- the one at the start by claims alone, each of which was allowed when it was made.
pub registry_refines :
    (c : Crypto) (text : Bytes) (k : Keeper) (gs : GenesisState) {s t : State}
    → Reach c text k (init_genesis gs empty_state) s
    → Reach c text k s t
    → Claims (dids_of s) (dids_of t)
registry_refines c text k gs {s} {t} before reach =
    (Reach-keeps (IsClaimed s) (IsClaimed-kept s) c text k reach
      (Reach-IsLinked c text k gs before, unclaimed)).1

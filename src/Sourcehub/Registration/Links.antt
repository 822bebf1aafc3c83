-- ===== src/Sourcehub/Registration/Links.antt =====
-- The two registration indexes of keeper.go, address to DID and DID to address, seen as one relation.
use shinzohub.Prelude.{
  ℕ, Bytes, Bool, true, false, Option, none, some, [], ◌∷◌, ◌≡◌, ◌≢◌, ◌↔◌, refl, sym, arith, same,
  same→eq, eq→same, same_iff, ne→same, ◌==◌, ==_iff, ◌&&◌, if◌then◌else◌,
}
use shinzohub.Sourcehub.State.{Store, State}
use shinzohub.Sourcehub.Roles.{addr_role_key, did_role_key}
use shinzohub.Sourcehub.Roles.KeyLaws.{
  addr_role_key_injective, did_role_key_injective, addr_role_key-ne-did_role_key,
  bytes_equal-eq-same,
}
use shinzohub.Sourcehub.Keeper.{write, set_key}
use shinzohub.Sourcehub.Registration.{holds_other, link}

-- For each role the two indexes are inverse to one another: an address has a DID exactly if the DID
-- has the address. Empty names count as absent, as they do in the code.
abbrev pub IsLinked : Store → Type 0
IsLinked store =
    (a : Bytes) (r : ℕ) (d : Bytes)
    → a ≢ []
    → d ≢ []
    → (store (addr_role_key a r) ≡ some d) ↔ (store (did_role_key d r) ≡ some a)

pub Bool-ext : (p q : Bool) → (p ≡ true → q ≡ true) → (q ≡ true → p ≡ true) → p ≡ q
Bool-ext true q f g = sym (f refl)
Bool-ext false true f g = g refl
Bool-ext false false f g = refl

pair_eq : (a b : Bytes) (r s : ℕ) → (same a b && (r == s)) ≡ true → (a ≡ b) × (r ≡ s)
pair_eq a b r s h = (same→eq a b (ground arith), ground arith)

eq_pair : (a b : Bytes) (r s : ℕ) → a ≡ b → r ≡ s → (same a b && (r == s)) ≡ true
eq_pair a b r s p q = rw (eq→same a b p, (==_iff r s).1 q)

addr_role_key-same :
    (a b : Bytes) (r s : ℕ) → same (addr_role_key a r) (addr_role_key b s) ≡ (same a b && (r == s))
addr_role_key-same a b r s =
    Bool-ext _ _
      (λ h. let e = addr_role_key_injective a b r s (same→eq _ _ h) in eq_pair a b r s e.0 e.1)
      (λ h. let e = pair_eq a b r s h in eq→same _ _ (cc (e.0, e.1)))

did_role_key-same :
    (a b : Bytes) (r s : ℕ) → same (did_role_key a r) (did_role_key b s) ≡ (same a b && (r == s))
did_role_key-same a b r s =
    Bool-ext _ _
      (λ h. let e = did_role_key_injective a b r s (same→eq _ _ h) in eq_pair a b r s e.0 e.1)
      (λ h. let e = pair_eq a b r s h in eq→same _ _ (cc (e.0, e.1)))

-- What the indexes hold after a registration.
pub link-addr :
    (a d b : Bytes) (r t : ℕ) (s : State)
    → (link a r d s).store (addr_role_key b t)
      ≡ (if same b a && (t == r) then some d else s.store (addr_role_key b t))
unfolding link set_key write
link-addr a d b r t s =
    rw (ne→same _ _ (addr_role_key-ne-did_role_key b d t r), addr_role_key-same b a t r)

pub link-did :
    (a d e : Bytes) (r t : ℕ) (s : State)
    → (link a r d s).store (did_role_key e t)
      ≡ (if same e d && (t == r) then some a else s.store (did_role_key e t))
unfolding link set_key write
link-did a d e r t s =
    rw (did_role_key-same e d t r, ne→same _ _ (λ p. addr_role_key-ne-did_role_key a e r t (sym p)))

-- A slot that passes its check is empty or holds the wanted value.
pub holds_other-false :
    (slot : Option Bytes) (v w : Bytes)
    → holds_other slot w ≡ false
    → slot ≡ some v
    → v ≢ []
    → v ≡ w
unfolding holds_other
holds_other-false none v w h e ne = cc
holds_other-false (some []) v w h e ne = absurd (ne (cc))
holds_other-false (some (x ∷ xs)) v w h e ne =
    ground (arith, bytes_equal-eq-same (x ∷ xs) w, same→eq (x ∷ xs) w)

-- One index after a registration determines the other, in both directions.
addr→did :
    (a d b e : Bytes) (r t : ℕ) (s : State)
    → holds_other (s.store (did_role_key d r)) a ≡ false
    → b ≢ []
    → (s.store (addr_role_key b t) ≡ some e → s.store (did_role_key e t) ≡ some b)
    → (link a r d s).store (addr_role_key b t) ≡ some e
    → (link a r d s).store (did_role_key e t) ≡ some b
addr→did a d b e r t s free nb old h = ground (
  arith,
  link-addr a d b r t s,
  link-did a d e r t s,
  holds_other-false (s.store (did_role_key d r)) b a,
  same_iff b a,
  same_iff e d,
)

did→addr :
    (a d b e : Bytes) (r t : ℕ) (s : State)
    → holds_other (s.store (addr_role_key a r)) d ≡ false
    → e ≢ []
    → (s.store (did_role_key e t) ≡ some b → s.store (addr_role_key b t) ≡ some e)
    → (link a r d s).store (did_role_key e t) ≡ some b
    → (link a r d s).store (addr_role_key b t) ≡ some e
did→addr a d b e r t s free ne old h = ground (
  arith,
  link-addr a d b r t s,
  link-did a d e r t s,
  holds_other-false (s.store (addr_role_key a r)) e d,
  same_iff b a,
  same_iff e d,
)

-- A registration whose two slots are free, or hold the same pair, keeps the indexes inverse.
pub link-IsLinked :
    (a d : Bytes) (r : ℕ) (s : State)
    → holds_other (s.store (addr_role_key a r)) d ≡ false
    → holds_other (s.store (did_role_key d r)) a ≡ false
    → IsLinked s.store
    → IsLinked (link a r d s).store
link-IsLinked a d r s free_addr free_did linked b t e nb ne = (
  addr→did a d b e r t s free_did nb (linked b t e nb ne).0,
  did→addr a d b e r t s free_addr ne (linked b t e nb ne).1,
)

-- A registration leaves alone every address that has a DID in the role.
pub link-keeps :
    (a d : Bytes) (r : ℕ) (s : State) (b e : Bytes) (t : ℕ)
    → holds_other (s.store (addr_role_key a r)) d ≡ false
    → e ≢ []
    → s.store (addr_role_key b t) ≡ some e
    → (link a r d s).store (addr_role_key b t) ≡ some e
link-keeps a d r s b e t free ne h = ground (
  arith,
  link-addr a d b r t s,
  holds_other-false (s.store (addr_role_key a r)) e d,
  same_iff b a,
)

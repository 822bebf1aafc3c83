-- ===== src/Sourcehub/Registration/Replay.antt =====
-- What the proofs of a registration bind: the two keys and the message, and not the caller.
use shinzohub.Prelude.{
  ℕ, Bytes, true, false, none, some, [], ◌∷◌, ◌≡◌, ◌≢◌, inl, inr, refl, sym, ◌∙◌, ap, subst, ok,
  Fails, arith, same, same→eq, same_refl, Bool-cases,
}
use shinzohub.Sourcehub.State.{State, Env}
use shinzohub.Sourcehub.Roles.{addr_role_key, did_role_key}
use shinzohub.Sourcehub.Roles.KeyLaws.{bytes_equal-eq-same}
use shinzohub.Sourcehub.Crypto.{Crypto}
use shinzohub.Sourcehub.Packets.{Channel, open_channel, require_policy_id}
use shinzohub.Sourcehub.Packets.Outcome.{after_packet, IsMessage, send_message-ok}
use shinzohub.Sourcehub.Registration.{
  EntityProof, verify_entity, holds_other, check_links, link, register_entity,
}
use shinzohub.Sourcehub.Registration.Links.{link-did}
use shinzohub.Sourcehub.Registration.Outcome.{guest_message, IsRegistered, register_entity_cases}

pub check_links-free :
    (a : Bytes) (r : ℕ) (d : Bytes) (s : State)
    → holds_other (s.store (addr_role_key a r)) d ≡ false
    → holds_other (s.store (did_role_key d r)) a ≡ false
    → check_links a r d s ≡ (ok tt, s)
unfolding check_links
check_links-free a r d s p q = rw (p, q)

-- A call of `RegisterEntity` succeeds for any caller, and writes both indexes and records one packet,
-- when the channel and the policy are set, the proofs hold, neither the address nor the DID has
-- another partner in the role, and the packet is accepted.
pub register_entity-ok :
    (c : Crypto) (env : Env) (p : EntityProof) (r : ℕ) (b : Bytes) (s : State) (did pid : Bytes)
    (ch : Channel) (policy bz : Bytes)
    → open_channel env s ≡ (ok ch, s)
    → require_policy_id s ≡ (ok policy, s)
    → verify_entity c p ≡ ok (did, pid)
    → holds_other (s.store (addr_role_key b r)) did ≡ false
    → holds_other (s.store (did_role_key did r)) b ≡ false
    → IsMessage env ch (guest_message ch policy r did) bz
    → register_entity c env p r b s ≡ (ok (did, pid), link b r did (after_packet env ch bz s))
unfolding register_entity
register_entity-ok c env p r b s did pid ch policy bz o q v fa fd i = rw (
  o,
  q,
  v,
  check_links-free b r did s fa fd,
  send_message-ok env ch (guest_message ch policy r did) bz s i,
)

-- A call that succeeded has carried the registration out.
pub register_entity-ok-IsRegistered :
    (c : Crypto) (env : Env) (p : EntityProof) (r : ℕ) (a : Bytes) (s t : State) (did pid : Bytes)
    → register_entity c env p r a s ≡ (ok (did, pid), t)
    → IsRegistered c env p r a s did pid
register_entity-ok-IsRegistered c env p r a s t did pid h =
    elim (register_entity_cases c env p r a s) [
      | inl (e, q) ↦ absurd (cc (sym q ∙ h))
      | inr (did', pid', d) ↦
          let same_did : did' ≡ did = cc (sym d.result ∙ h) in
          let same_pid : pid' ≡ pid = cc (sym d.result ∙ h) in
          subst (λ x. IsRegistered c env p r a s x pid) same_did
            (subst (λ y. IsRegistered c env p r a s did' y) same_pid d)
    ]

-- A role of a DID that another address holds.
taken : (a b : Bytes) → b ≢ [] → a ≢ b → holds_other (some b) a ≡ true
unfolding holds_other
taken a [] nb ne = absurd (nb refl)
taken a (x ∷ b) nb ne = elim (Bool-cases (same (x ∷ b) a)) [
  | inl e ↦ absurd (ne (sym (same→eq (x ∷ b) a e)))
  | inr e ↦ rw (bytes_equal-eq-same (x ∷ b) a, e)
]

link-did_self : (a d : Bytes) (r : ℕ) (s : State) → (link a r d s).store (did_role_key d r) ≡ some a
link-did_self a d r s = link-did a d d r r s ∙ ground (arith, same_refl d)

-- Once the DID of the proofs has another address in the role, the proofs are refused.
pub register_entity_taken :
    (c : Crypto) (env : Env) (p : EntityProof) (r : ℕ) (a b did pid : Bytes) (s : State)
    → b ≢ []
    → a ≢ b
    → verify_entity c p ≡ ok (did, pid)
    → s.store (did_role_key did r) ≡ some b
    → Fails (register_entity c env p r a s) s
register_entity_taken c env p r a b did pid s nb ne v held =
    elim (register_entity_cases c env p r a s) [
      | inl f ↦ f
      | inr (did', pid', d) ↦
          let same_did : did' ≡ did = cc (sym d.verified ∙ v) in
          let free : holds_other (s.store (did_role_key did r)) a ≡ false =
            subst (λ x. holds_other (s.store (did_role_key x r)) a ≡ false) same_did d.free_did in
          absurd (cc (taken a b nb ne, ap (λ o. holds_other o a) held, free))
    ]

-- The proofs do not name the caller. Where a call by `a` registers a DID, the same keys, signatures and
-- message sent first by any other address `b` with no DID in the role register the DID for `b`, if the
-- DID was free; and then the call by `a` fails in every environment and changes nothing.
pub front_run :
    (c : Crypto) (env env' : Env) (p : EntityProof) (r : ℕ) (a b : Bytes) (s t : State)
    (did pid : Bytes)
    → b ≢ []
    → a ≢ b
    → s.store (addr_role_key b r) ≡ none
    → s.store (did_role_key did r) ≡ none
    → register_entity c env p r a s ≡ (ok (did, pid), t)
    → let (res, u) = register_entity c env p r b s in
      (res ≡ ok (did, pid)) × Fails (register_entity c env' p r a u) u
unfolding holds_other
front_run c env env' p r a b s t did pid nb ne free_b free_did h =
    let d = register_entity-ok-IsRegistered c env p r a s t did pid h in
    let done =
      register_entity-ok c env p r b s did pid d.channel d.policy d.packet d.opened d.has_policy
        d.verified (rw (free_b, holds_other)) (rw (free_did, holds_other)) d.is_message in
    (
      ap (λ x. x.0) done,
      register_entity_taken c env' p r a b did pid _ nb ne d.verified (
          ap (λ x. x.1.store (did_role_key did r)) done
          ∙ link-did_self b did r (after_packet env d.channel d.packet s)),
    )

-- ===== src/Sourcehub/System/Acceptance.antt =====
-- Which registrations `RegisterEntity` of x/sourcehub/keeper/keeper.go accepts.
use shinzohub.Prelude.{ℕ, Bytes, [], ◌≡◌, ◌≢◌, ◌↔◌, ap, ok}
use shinzohub.Sourcehub.State.{State, Env}
use shinzohub.Sourcehub.Crypto.{Crypto}
use shinzohub.Sourcehub.Keeper.{Keeper}
use shinzohub.Sourcehub.Packets.{Channel, open_channel, require_policy_id}
use shinzohub.Sourcehub.Packets.Outcome.{IsMessage}
use shinzohub.Sourcehub.Registration.{EntityProof, verify_entity, register_entity}
use shinzohub.Sourcehub.Registration.Outcome.{guest_message, check_links-ok}
use shinzohub.Sourcehub.Registration.Replay.{register_entity-ok, register_entity-ok-IsRegistered}
use shinzohub.Sourcehub.Genesis.{GenesisState, init_genesis}
use shinzohub.Sourcehub.System.{empty_state, Reach}
use shinzohub.Sourcehub.System.Registry.{Reach-IsLinked}
use shinzohub.Sourcehub.System.Refinement.{IsClaimable, dids_of, free-IsClaimable, IsClaimable-free}

-- In every state reached from any genesis, where the channel and the policy are set, the proofs hold
-- for a DID that is not empty, and the packet is accepted, a registration succeeds exactly if the
-- address may claim the DID in the role: it has no other DID there, and no other address has the DID.
pub register_entity_iff :
    (c : Crypto) (text : Bytes) (k : Keeper) (gs : GenesisState) {t : State} (env : Env)
    (p : EntityProof) (r : ℕ) (a did pid : Bytes) (ch : Channel) (policy bz : Bytes)
    → Reach c text k (init_genesis gs empty_state) t
    → did ≢ []
    → open_channel env t ≡ (ok ch, t)
    → require_policy_id t ≡ (ok policy, t)
    → verify_entity c p ≡ ok (did, pid)
    → IsMessage env ch (guest_message ch policy r did) bz
    → ((register_entity c env p r a t).0 ≡ ok (did, pid)) ↔ IsClaimable (dids_of t) a did r
register_entity_iff c text k gs {t} env p r a did pid ch policy bz reach nd o q v i =
    let linked = Reach-IsLinked c text k gs reach in
    (
      λ h.
          let t' = (register_entity c env p r a t).1 in
          let d = register_entity-ok-IsRegistered c env p r a t t' did pid (ap (λ x. (x, t')) h) in
          free-IsClaimable a did r t linked d.free_addr d.free_did,
      λ claimable.
          let (fa, fd) =
            check_links-ok a r did t (IsClaimable-free a did r t linked nd claimable) in
          ap (λ x. x.0) (register_entity-ok c env p r a t did pid ch policy bz o q v fa fd i),
    )

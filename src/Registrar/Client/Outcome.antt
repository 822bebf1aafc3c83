-- ===== src/Registrar/Client/Outcome.antt =====
-- How a transaction of the client of pkg/sourcehub/acpGoClient.go ends.
use shinzohub.Prelude.{
  ◌+◌, length, length-append, arith, Bytes, true, none, some, List, [], ◌∷◌, ◌++◌, Result, ok,
  Fails, Result-cases, ◌≡◌, ◌↔◌, refl, ◌⊎◌, inl, inr,
}
use shinzohub.Acp.{PolicyCmd}
use shinzohub.Registrar.Client.{
  Hub, AcpGoClient, Net, ClientError, SignedMsg, broadcast_tx, send_and_confirm_tx, sign_commands,
  sign_command, execute_policy_commands, acp_register_object, register_once, is_object_registered,
}

-- The transaction `tx` was taken in, on top of the ones before.
pub record IsSent (hub : Hub) (client : AcpGoClient) (messages : List SignedMsg) (s t : Net)
    : Type 0 where
  pub tx : Bytes
  pub hash : Bytes
  pub built : hub.build_tx client.signer messages ≡ ok tx
  pub accepted : hub.broadcast_tx tx ≡ ok hash
  pub recorded : t.broadcasts ≡ s.broadcasts ++ tx ∷ []

-- Nothing was sent, and the call fails; or one transaction was sent, and the call succeeds just when
-- SourceHub executed it.
pub Confirms :
    Hub → AcpGoClient → List SignedMsg → Net → Result ClientError (Unit {0}) × Net → Type 0
Confirms hub client messages s r =
    Fails r s
    ⊎ ((sent : IsSent hub client messages s r.1) × ((r.0 ≡ ok tt)
          ↔ (hub.await_tx sent.hash ≡ ok none)))

sent_now :
    {hub : Hub} {client : AcpGoClient} {messages : List SignedMsg} {s : Net} (tx hash : Bytes)
    → hub.build_tx client.signer messages ≡ ok tx
    → hub.broadcast_tx tx ≡ ok hash
    → IsSent hub client messages s (record s { broadcasts = s.broadcasts ++ tx ∷ [] })
sent_now tx hash p q = record { tx = tx; hash = hash; built = p; accepted = q; recorded = refl }

confirm-Confirms :
    (hub : Hub) (client : AcpGoClient) (messages : List SignedMsg)
    (decorate : ClientError → ClientError) (s : Net)
    → Confirms hub client messages s (send_and_confirm_tx hub client messages decorate s)
unfolding send_and_confirm_tx broadcast_tx Confirms sent_now
confirm-Confirms hub client messages decorate s =
    elim (Result-cases (hub.build_tx client.signer messages)) [
      | inl (e, p) ↦ inl (decorate (ClientError.library e), rw p refl)
      | inr (tx, p) ↦ elim (Result-cases (hub.broadcast_tx tx)) [
        | inl (e, q) ↦ inl (decorate (ClientError.sending e), rw (p, broadcast_tx, q) refl)
        | inr (hash, q) ↦
            rw (p, broadcast_tx, q)
              (elim (Result-cases (hub.await_tx hash)) [
                | inl (e, w) ↦ rw w (inr (sent_now tx hash p q, ((λ h. cc), (λ h. cc (h, w)))))
                | inr (none, w) ↦ rw w (inr (sent_now tx hash p q, ((λ h. w), (λ h. refl))))
                | inr (some e, w) ↦ rw w (inr (sent_now tx hash p q, ((λ h. cc), (λ h. cc (h, w)))))
              ])
      ]
    ]

sign_commands-length :
    (hub : Hub) (client : AcpGoClient) (cmds : List PolicyCmd) (messages signed : List SignedMsg)
    → sign_commands hub client messages cmds ≡ ok signed
    → length signed ≡ length messages + length cmds
unfolding sign_commands
sign_commands-length hub client [] messages signed h = ground (arith)
sign_commands-length hub client (cmd ∷ cmds) messages signed h =
    elim (Result-cases (sign_command hub client cmd)) [
      | inl (e, p) ↦ absurd (ground (arith))
      | inr (message, p) ↦
          let more =
            sign_commands-length hub client cmds (messages ++ message ∷ []) signed (rw p at h) in
          omega (arith, more, length-append messages (message ∷ []))
    ]

-- One transaction carries the messages, one for every command.
unfoldable pub Executes :
    Hub → AcpGoClient → List PolicyCmd → Net → Result ClientError (Unit {0}) × Net → Type 0
Executes hub client cmds s r =
    Fails r s
    ⊎ ((messages : List SignedMsg) × (sign_commands hub client [] cmds ≡ ok messages)
        × (length messages ≡ length cmds)
        × (sent : IsSent hub client messages s r.1) × ((r.0 ≡ ok tt)
            ↔ (hub.await_tx sent.hash ≡ ok none)))

pub execute_policy_commands_cases :
    (hub : Hub) (client : AcpGoClient) (cmds : List PolicyCmd)
    (decorate : ClientError → ClientError) (s : Net)
    → Executes hub client cmds s (execute_policy_commands hub client cmds decorate s)
unfolding execute_policy_commands Executes Confirms
execute_policy_commands_cases hub client [] decorate s =
    inl (decorate ClientError.no_commands, refl)
execute_policy_commands_cases hub client (cmd ∷ cmds) decorate s =
    elim (Result-cases (sign_commands hub client [] (cmd ∷ cmds))) [
      | inl (e, p) ↦ inl (decorate (ClientError.library e), rw p refl)
      | inr (messages, p) ↦ rw p (elim (confirm-Confirms hub client messages decorate s) [
        | inl fails ↦ inl fails
        | inr (sent, done) ↦ inr (
          messages,
          refl,
          omega (arith, sign_commands-length hub client (cmd ∷ cmds) [] messages p),
          sent,
          done,
        )
      ])
    ]

-- An object that SourceHub says is registered is not registered again: the call succeeds and sends
-- nothing.
acp_register_object-registered :
    (hub : Hub) (client : AcpGoClient) (resource id : Bytes) (s : Net)
    → is_object_registered hub client resource id ≡ ok true
    → acp_register_object hub client resource id s ≡ (ok tt, s)
unfolding acp_register_object register_once
acp_register_object-registered hub client resource id s h = rw h refl

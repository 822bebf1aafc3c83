-- ===== src/Registrar/Feeds/Creation.antt =====
-- What `CreateDataFeed` of pkg/sourcehub/shinzoAcpGoClient.go sends.
use shinzohub.Prelude.{
  Bytes, List, [], ◌∷◌, ◌++◌, ok, err, Result-cases, Fails, ◌≡◌, ◌≢◌, refl, ap, ◌∙◌, inl, inr, All,
  Any, map, append_assoc, append-nil, codes,
}
use shinzohub.Acp.{PolicyCmd, set_relationship, actor_relationship, relationship}
use shinzohub.Registrar.Client.{Net, ClientError}
use shinzohub.Registrar.Parents.{
  HasNoColon, parent_id, parse_parent, parse_parent_iff, parent_command, parent_commands,
}
use shinzohub.Registrar.Feeds.{AcpClient, create_data_feed}

-- Neither part of the parent holds a colon.
abbrev pub IsParent : Bytes × Bytes → Type 0
IsParent p = HasNoColon p.0 × HasNoColon p.1

-- The relationships that a data feed is created with: its creator's, then one with each parent, which
-- is given by its type and its name.
abbrev pub feed_commands : Bytes → Bytes → List (Bytes × Bytes) → List PolicyCmd
feed_commands document did parents =
    set_relationship (actor_relationship (codes "view") document (codes "creator") did)
    ∷ map (λ p. set_relationship (relationship (codes "view") document (codes "parent") p.0 p.1))
        parents

pub parent_commands-map :
    (document : Bytes) (cmds : List PolicyCmd) (parents : List (Bytes × Bytes))
    → All IsParent parents
    → parent_commands document cmds (map parent_id parents)
      ≡ ok (cmds ++ map (parent_command document) parents)
unfolding parent_commands
parent_commands-map document cmds [] h = rw (append-nil cmds) refl
parent_commands-map document cmds (p ∷ parents) h =
    rw ((parse_parent_iff (parent_id p) p).1 (refl, h.0.0, h.0.1)) (
      parent_commands-map document (cmds ++ parent_command document p ∷ []) parents h.1
      ∙ ap ok (append_assoc cmds _ _))

-- For parents that hold no colon, and there is one at least, a data feed is created by one run of
-- policy commands: the DID becomes the `creator` of the view, and then, in order, each parent becomes
-- its `parent`, under the type and the name that stand before and after the colon.
pub create_data_feed_lem :
    (acp : AcpClient) (document did : Bytes) (parents : List (Bytes × Bytes)) (s : Net)
    → parents ≢ []
    → All IsParent parents
    → create_data_feed acp document did (map parent_id parents) s
      ≡ acp.execute
          (feed_commands document did parents)
          (ClientError.create_data_feed_failed document did)
          s
unfolding create_data_feed parent_command
create_data_feed_lem acp document did [] s ne h = absurd (ne refl)
create_data_feed_lem acp document did (p ∷ parents) s ne h =
    rw (parent_commands-map document [] (p ∷ parents) h) refl

-- A parent that does not parse.
unfoldable pub IsMalformed : Bytes → Type 0
IsMalformed id = (e : ClientError) × (parse_parent id ≡ err e)

parent_commands-fails :
    (document : Bytes) (cmds : List PolicyCmd) (ids : List Bytes)
    → Any IsMalformed ids
    → (e : ClientError) × (parent_commands document cmds ids ≡ err e)
unfolding parent_commands IsMalformed
parent_commands-fails document cmds [] h = elim h [ ]
parent_commands-fails document cmds (id ∷ ids) h = elim (Result-cases (parse_parent id)) [
  | inl (e, p) ↦ rw p (e, refl)
  | inr (parent, p) ↦ rw p (elim h [
    | inl (e, q) ↦ absurd (cc (p, q))
    | inr more ↦
        parent_commands-fails document (cmds ++ parent_command document parent ∷ []) ids more
  ])
]

-- If one of the parents is not of the form `type:name`, the data feed is refused and nothing is sent,
-- wherever the parent stands in the list.
pub create_data_feed_malformed :
    (acp : AcpClient) (document did : Bytes) (ids : List Bytes) (s : Net)
    → Any IsMalformed ids
    → Fails (create_data_feed acp document did ids s) s
unfolding create_data_feed
create_data_feed_malformed acp document did [] s h = elim h [ ]
create_data_feed_malformed acp document did (id ∷ ids) s h =
    let failure = parent_commands-fails document [] (id ∷ ids) h in
    (ClientError.create_data_feed_failed document did failure.0, rw failure.1 refl)

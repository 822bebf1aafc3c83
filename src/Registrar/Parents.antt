-- ===== src/Registrar/Parents.antt =====
-- The parents of a data feed, in `CreateDataFeed` of pkg/sourcehub/shinzoAcpGoClient.go: each is
-- written `resourceType:resourceName`.
use shinzohub.Prelude.{
  sym, subst, ◌∙◌, ℕ, Bytes, List, [], ◌∷◌, ◌++◌, Result, ok, err, All, codes, ◌==◌, if◌then◌else◌,
  ◌≡◌, ◌≢◌, ◌↔◌, inl, inr, refl, arith, ap, Bool-cases, and_then,
}
use shinzohub.Acp.{PolicyCmd, set_relationship, relationship}
use shinzohub.Registrar.Client.{ClientError}

-- Puts the byte at the start of the first part.
abbrev add_head : ℕ → List Bytes → List Bytes
add_head c [] = (c ∷ []) ∷ []
add_head c (part ∷ parts) = (c ∷ part) ∷ parts

-- `strings.Split(s, ":")`
unfoldable pub split_colon : Bytes → List Bytes
split_colon [] = [] ∷ []
split_colon (c ∷ cs) = let rest = split_colon cs in if c == b':' then [] ∷ rest else add_head c rest

-- `len(parent) != 2` is an error.
unfoldable pub two_parts : Bytes → List Bytes → Result ClientError (Bytes × Bytes)
two_parts id [] = err (ClientError.invalid_parent id)
two_parts id (a ∷ []) = err (ClientError.invalid_parent id)
two_parts id (a ∷ b ∷ []) = ok (a, b)
two_parts id (a ∷ b ∷ c ∷ parts) = err (ClientError.invalid_parent id)

unfoldable pub parse_parent : Bytes → Result ClientError (Bytes × Bytes)
parse_parent id = two_parts id (split_colon id)

unfoldable pub parent_command : Bytes → Bytes × Bytes → PolicyCmd
parent_command document parent =
    set_relationship (relationship (codes "view") document (codes "parent") parent.0 parent.1)

-- The loop over the parents, which appends to `parentCmds`.
unfoldable pub parent_commands :
    Bytes → List PolicyCmd → List Bytes → Result ClientError (List PolicyCmd)
parent_commands document cmds [] = ok cmds
parent_commands document cmds (id ∷ ids) =
    and_then (parse_parent id)
      (λ parent. parent_commands document (cmds ++ parent_command document parent ∷ []) ids)

pub HasNoColon : Bytes → Type 0
HasNoColon = All (λ c. c ≢ b':')

-- The text `a:b` of a parent.
abbrev pub parent_id : Bytes × Bytes → Bytes
parent_id p = p.0 ++ (b':' ∷ p.1)

split_colon-none : (s : Bytes) → HasNoColon s → split_colon s ≡ s ∷ []
unfolding split_colon HasNoColon
split_colon-none [] h = refl
split_colon-none (c ∷ cs) h = rw (split_colon-none cs h.1) (ground (arith, h.0))

split_colon-one :
    (a b : Bytes) → HasNoColon a → HasNoColon b → split_colon (a ++ (b':' ∷ b)) ≡ a ∷ b ∷ []
unfolding split_colon HasNoColon
split_colon-one [] b h k = rw (split_colon-none b k) refl
split_colon-one (c ∷ a) b h k = rw (split_colon-one a b h.1 k) (ground (arith, h.0))

join_colon : List Bytes → Bytes
join_colon [] = []
join_colon (part ∷ []) = part
join_colon (part ∷ next ∷ parts) = part ++ (b':' ∷ join_colon (next ∷ parts))

join-add_head : (c : ℕ) (parts : List Bytes) → join_colon (add_head c parts) ≡ c ∷ join_colon parts
unfolding join_colon
join-add_head c [] = refl
join-add_head c (part ∷ []) = refl
join-add_head c (part ∷ next ∷ parts) = refl

join-first : (parts : List Bytes) → parts ≢ [] → join_colon ([] ∷ parts) ≡ b':' ∷ join_colon parts
unfolding join_colon
join-first [] ne = absurd (ne refl)
join-first (next ∷ parts) ne = refl

split_colon-ne : (s : Bytes) → split_colon s ≢ []
unfolding split_colon
split_colon-ne [] h = cc
split_colon-ne (c ∷ cs) h = elim (Bool-cases (c == b':')) [
  | inl e ↦ absurd (ground arith)
  | inr e ↦ add_head-ne c (split_colon cs) (rw e at h)
]
  where
    add_head-ne : (c : ℕ) (parts : List Bytes) → add_head c parts ≢ []
    add_head-ne c [] h = cc
    add_head-ne c (part ∷ parts) h = cc

-- The parts of a text, put together again.
join-split_colon : (s : Bytes) → join_colon (split_colon s) ≡ s
unfolding split_colon join_colon
join-split_colon [] = refl
join-split_colon (c ∷ cs) = elim (Bool-cases (c == b':')) [
  | inl e ↦
      rw (e, join-first (split_colon cs) (split_colon-ne cs), join-split_colon cs) (ground arith)
  | inr e ↦ rw (e, join-add_head c (split_colon cs), join-split_colon cs) refl
]

add_head-All :
    (c : ℕ) (parts : List Bytes)
    → c ≢ b':'
    → All HasNoColon parts
    → All HasNoColon (add_head c parts)
unfolding HasNoColon
add_head-All c [] ne h = ((ne, tt), tt)
add_head-All c (part ∷ parts) ne h = ((ne, h.0), h.1)

split_colon-All : (s : Bytes) → All HasNoColon (split_colon s)
unfolding split_colon HasNoColon
split_colon-All [] = (tt, tt)
split_colon-All (c ∷ cs) = elim (Bool-cases (c == b':')) [
  | inl e ↦ rw e (tt, split_colon-All cs)
  | inr e ↦ rw e (add_head-All c (split_colon cs) (ground arith) (split_colon-All cs))
]

two_parts-ok :
    (id : Bytes) (parts : List Bytes) (p : Bytes × Bytes)
    → two_parts id parts ≡ ok p
    → parts ≡ p.0 ∷ p.1 ∷ []
unfolding two_parts
two_parts-ok id [] p h = absurd (cc)
two_parts-ok id (a ∷ []) p h = absurd (cc)
two_parts-ok id (a ∷ b ∷ []) p h = cc
two_parts-ok id (a ∷ b ∷ c ∷ parts) p h = absurd (cc)

-- The text of a parent is accepted just when it is two texts without a colon, with one between them,
-- and these are then the resource's type and name.
pub parse_parent_iff :
    (id : Bytes) (p : Bytes × Bytes)
    → (parse_parent id ≡ ok p) ↔ ((id ≡ parent_id p) × HasNoColon p.0 × HasNoColon p.1)
unfolding parse_parent two_parts join_colon
parse_parent_iff id p = (
  (λ h.
      let parts = two_parts-ok id (split_colon id) p h in
      let all = subst (All HasNoColon) parts (split_colon-All id) in
      (sym (join-split_colon id) ∙ ap join_colon parts, all.0, all.1.0)),
  (λ h. rw (h.0, split_colon-one p.0 p.1 h.1 h.2) refl),
)

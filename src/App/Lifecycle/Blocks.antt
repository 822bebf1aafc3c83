-- ===== src/App/Lifecycle/Blocks.antt =====
-- The blocks that a node finalizes, app/app.go.
use shinzohub.Prelude.{
  ℕ, Bytes, true, false, List, [], ◌∷◌, ◌++◌, map, append_assoc, append-nil, ◌≡◌, ◌⊎◌, inl, inr,
  refl, sym, ap, ◌∙◌, ok, err, Result-cases, ◌+◌,
}
use shinzohub.App.Lifecycle.{
  Chain, BlockEnv, migrate_if_missing, do_once, finalize_block, finalize_blocks,
}

-- A chain on which `app.once` is done, with more requests.
abbrev pub with_requests : List Bytes → Chain → Chain
with_requests reqs s = record s { finalized = s.finalized ++ reqs }

finalize_block-done :
    (env : BlockEnv) (req : Bytes) (s : Chain)
    → s.once_done ≡ true
    → (finalize_block env req s).1 ≡ with_requests (req ∷ []) s
unfolding finalize_block do_once
finalize_block-done env req s d = rw d refl

finalize_blocks-done :
    (blocks : List (BlockEnv × Bytes)) (s : Chain)
    → s.once_done ≡ true
    → finalize_blocks blocks s ≡ with_requests (map (λ b. b.1) blocks) s
unfolding finalize_blocks
finalize_blocks-done [] s d = ap (λ l. record s { finalized = l }) (sym (append-nil s.finalized))
finalize_blocks-done ((env, req) ∷ blocks) s d =
    ap (finalize_blocks blocks) (finalize_block-done env req s d)
    ∙ finalize_blocks-done blocks (with_requests (req ∷ []) s) d
    ∙ ap (λ l. record s { finalized = l }) (append_assoc s.finalized (req ∷ []) _)

-- The chain after its first block's migration and some requests.
abbrev pub after_first : ℕ → List Bytes → Chain → Chain
after_first n reqs s = record { once_done = true; migrations = n; finalized = s.finalized ++ reqs }

-- The state that the first call leaves.
finalize_block-first :
    (env : BlockEnv) (req : Bytes) (s : Chain)
    → s.once_done ≡ false
    → let t = (finalize_block env req s).1 in
      ((env.params ≡ ok tt) × (t ≡ after_first s.migrations (req ∷ []) s))
      ⊎ (((e : Bytes) × (env.params ≡ err e))
          × (env.migrate_params ≡ ok tt)
          × (t ≡ after_first (s.migrations + 1) (req ∷ []) s))
      ⊎ (((e : Bytes) × (env.params ≡ err e))
          × ((e : Bytes) × (env.migrate_params ≡ err e))
          × (t ≡ after_first (s.migrations + 1) [] s))
unfolding finalize_block do_once migrate_if_missing
finalize_block-first env req s d = elim (Result-cases env.params) [
  | inr (u, p) ↦ inl (p, rw (d, p) refl)
  | inl (e, p) ↦ elim (Result-cases env.migrate_params) [
    | inr (u, q) ↦ inr (inl ((e, p), q, rw (d, p, q) refl))
    | inl (e', q) ↦ inr (
        inr (
          (e, p),
          (e', q),
          rw (d, p, q)
              (ap (λ l. record { once_done = true; migrations = s.migrations + 1; finalized = l })
                (sym (append-nil s.finalized))),
        ))
  ]
]

-- The rest of the blocks.
rest_of :
    (blocks : List (BlockEnv × Bytes)) (n : ℕ) (reqs : List Bytes) (s t : Chain)
    → t ≡ after_first n reqs s
    → finalize_blocks blocks t ≡ after_first n (reqs ++ map (λ b. b.1) blocks) s
rest_of blocks n reqs s t q =
    ap (finalize_blocks blocks) q
    ∙ finalize_blocks-done blocks (after_first n reqs s) refl
    ∙ ap (λ l. record { once_done = true; migrations = n; finalized = l })
        (append_assoc s.finalized reqs _)

-- After a start, a node that finalizes blocks migrates the consensus parameters at most once, before
-- the first block and exactly if they cannot be read then, and hands every block's request to the base
-- application in order; only if the migration fails, and the node panics, the first block's request
-- is left out. What the calls return for later blocks makes no difference.
pub finalize_blocks_once :
    (env : BlockEnv) (req : Bytes) (blocks : List (BlockEnv × Bytes)) (s : Chain)
    → s.once_done ≡ false
    → let t = finalize_blocks ((env, req) ∷ blocks) s in
      let later = map (λ b. b.1) blocks in
      ((env.params ≡ ok tt) × (t ≡ after_first s.migrations (req ∷ later) s))
      ⊎ (((e : Bytes) × (env.params ≡ err e))
          × (env.migrate_params ≡ ok tt)
          × (t ≡ after_first (s.migrations + 1) (req ∷ later) s))
      ⊎ (((e : Bytes) × (env.params ≡ err e))
          × ((e : Bytes) × (env.migrate_params ≡ err e))
          × (t ≡ after_first (s.migrations + 1) later s))
unfolding finalize_blocks
finalize_blocks_once env req blocks s d = elim (finalize_block-first env req s d) [
  | inl (p, t) ↦ inl (p, rest_of blocks _ (req ∷ []) s _ t)
  | inr (inl (p, q, t)) ↦ inr (inl (p, q, rest_of blocks _ (req ∷ []) s _ t))
  | inr (inr (p, q, t)) ↦ inr (inr (p, q, rest_of blocks _ [] s _ t))
]

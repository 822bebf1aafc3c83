-- ===== src/Wire/Loop/Ends.antt =====
-- The loop of `unmarshal` ends: every field takes a byte at least.
use shinzohub.Prelude.{
  ◌||◌, ltb, ℕ, zero, suc, ◌+◌, ◌≤◌, ◌<◌, ◌≡◌, ◌≢◌, refl, arith, [], ◌∷◌, Bool, Bytes, length,
  Result, ok, err, Option, none, some, map_err,
}
use shinzohub.Wire.Reader.{
  Fault, Cursor, cursor, unread, read_slice, read_tag, drop, out_of_fuel, skip_failed,
  invalid_length, unexpected_eof, is_negative, ◌>>=◌,
}
use shinzohub.Wire.Reader.Within.{
  Within, Moves, rest_of, rest_after_tag, bind-Within, read_tag-Within, length-drop, if_Within,
  Within-ne, ne-Within, length-ne, eof-ne,
}
use shinzohub.Wire.Loop.{
  Message, Skip, Switch, skip_field, keep_unknown, dispatch, read_field, unmarshal_loop,
  unmarshal_of,
}

-- `runtime.Skip` that succeeds has read a tag.
pub record SkipsTag (skip : Skip) : Type 0 where
  pub advances : (bs : Bytes) (n : ℕ) → skip bs ≡ ok n → 0 < n

-- The cases of a message read on, or fail as Go does.
abbrev pub Progresses : {M : Type 0} → Switch M → Type 0
Progresses {M = M} switch =
    (number wire_type : ℕ) (x : M) (c : Cursor)
    → Moves (length (unread c)) (switch number wire_type x c)

shorter : (n b : ℕ) (bs : Bytes) → 0 < n → length (drop n (b ∷ bs)) < suc (length bs)
shorter zero b bs h = absurd (omega arith)
shorter (suc n) b bs h = omega (arith, length-drop n bs)

module _ (skip : Skip) (law : SkipsTag skip) (discard : Bool) where
  after_skip :
      (i b : ℕ) (bs : Bytes) (r : Result Bytes ℕ)
      → skip (b ∷ bs) ≡ r
      → Within rest_of
          (suc (length bs))
          (map_err skip_failed r >>= λ n. read_slice n (cursor i (b ∷ bs)))
  unfolding read_slice Within
  after_skip i b bs (err e) p = λ q. cc q
  after_skip i b bs (ok n) p =
      if_Within rest_of _ (is_negative n || is_negative (i + n)) (err invalid_length) _ length-ne (
        if_Within rest_of _ (ltb (suc (length bs)) n) (err unexpected_eof) _ eof-ne
          (shorter n b bs (law.advances (b ∷ bs) n p)))

  skip_field-Within :
      (i b : ℕ) (bs : Bytes)
      → Within rest_of (suc (length bs)) (skip_field skip discard (cursor i (b ∷ bs)))
  unfolding skip_field
  skip_field-Within i b bs = after_skip i b bs (skip (b ∷ bs)) refl

  module _ {M : Type 0} (switch : Switch M) (moves : Progresses switch) where
    abbrev left : Message M × Cursor → ℕ
    left p = length (unread p.1)

    dispatch-Within :
        (o : Option (Result Fault (M × Cursor))) (x : Message M) (i b : ℕ) (bs : Bytes) (k : ℕ)
        → k ≤ length bs
        → Moves k o
        → Within left (suc (length bs)) (dispatch skip discard o x (cursor i (b ∷ bs)))
    unfolding dispatch keep_unknown Within Moves
    dispatch-Within none x i b bs k le h =
        bind-Within rest_of left _ _ (skip_field skip discard (cursor i (b ∷ bs))) _
          (skip_field-Within i b bs) (λ p q. q)
    dispatch-Within (some r) x i b bs k le h =
        bind-Within rest_of left _ _ r _ h (λ p q. omega arith)

    read_field-Within :
        (x : Message M) (i b : ℕ) (bs : Bytes)
        → Within left (suc (length bs)) (read_field skip discard switch x (cursor i (b ∷ bs)))
    unfolding read_field
    read_field-Within x i b bs =
        bind-Within rest_after_tag left _ _ (read_tag (cursor i (b ∷ bs))) _
          (read_tag-Within (cursor i (b ∷ bs)))
          (λ p q. dispatch-Within _ x i b bs _ (omega arith) (moves p.0 p.1 x.body p.2))

    unmarshal_loop-ends :
        (fuel : ℕ) (x : Message M) (c : Cursor)
        → length (unread c) < fuel
        → unmarshal_loop skip discard switch fuel x c ≢ err out_of_fuel
    unfolding unmarshal_loop
    unmarshal_loop-ends zero x c h = absurd (omega arith)
    unmarshal_loop-ends (suc fuel) x (cursor i []) h = λ p. cc
    unmarshal_loop-ends (suc fuel) x (cursor i (b ∷ bs)) h =
        Within-ne left _ (read_field skip discard switch x (cursor i (b ∷ bs))) _
          (read_field-Within x i b bs) (λ p q. unmarshal_loop-ends fuel p.0 p.1 (omega arith))

    pub unmarshal_of-ends :
        (input : Bytes) (o : Option (Message M))
        → unmarshal_of skip discard switch input o ≢ err out_of_fuel
    unfolding unmarshal_of
    unmarshal_of-ends input none = λ p. cc
    unmarshal_of-ends input (some x) =
        let loop = unmarshal_loop skip discard switch (suc (length input)) x (cursor 0 input) in
        Within-ne (λ _. 0) 1 loop _
          (ne-Within loop (unmarshal_loop-ends _ x (cursor 0 input) (omega arith))) (λ p q r. cc r)

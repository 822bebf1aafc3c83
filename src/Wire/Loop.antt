-- ===== src/Wire/Loop.antt =====
-- The loop of the `unmarshal` functions of shinzonetwork/sourcehub/v1, which all messages share but
-- for their `switch fieldNum`. After the loop `iNdEx` is the input's length, so the last guard,
-- `iNdEx > l`, never holds. What an error leaves in `x` is not kept.
pub mod Ends
pub mod Parses
use shinzohub.Prelude.{
  ℕ, ◌≡◌, zero, suc, ◌+◌, List, [], ◌∷◌, ◌++◌, Bool, true, false, Bytes, length, if◌then◌else◌,
  Result, ok, err, map_err, map_err, Option, none, some,
}
use shinzohub.Wire.Writer.{Halt}
use shinzohub.Wire.Reader.{
  Fault, skip_failed, out_of_fuel, Cursor, cursor, unread, read_tag, read_slice, ◌>>=◌,
}

-- A message beside the fields that its type does not have.
pub record Message (M : Type 0) : Type 0 where
  pub body : M
  pub unknown_fields : Bytes

-- `runtime.Skip` of the bytes from a tag on; its `int` as a bit pattern.
abbrev pub Skip : Type 0
Skip = Bytes → Result Bytes ℕ

-- `case fieldNum`, of the field's number and wire type; `none` where no case has the number.
abbrev pub Switch : Type 0 → Type 0
Switch M = ℕ → ℕ → M → Cursor → Option (Result Fault (M × Cursor))

module _ (skip : Skip) (discard : Bool) where
  unfoldable pub skip_field : Cursor → Result Fault (Bytes × Cursor)
  skip_field c = map_err skip_failed (skip (unread c)) >>= λ n. read_slice n c

  module _ {M : Type 0} where
    -- `default`: back to `preIndex`.
    unfoldable pub keep_unknown : Message M → Cursor → Result Fault (Message M × Cursor)
    keep_unknown x before = do
      p ← skip_field before
      let kept = if discard then x.unknown_fields else x.unknown_fields ++ p.0
      ok (record x { unknown_fields = kept }, p.1)

    unfoldable pub dispatch :
        Option (Result Fault (M × Cursor)) → Message M → Cursor → Result Fault (Message M × Cursor)
    dispatch none x before = keep_unknown x before
    dispatch (some case) x before = case >>= λ p. ok (record x { body = p.0 }, p.1)

    module _ (switch : Switch M) where
      unfoldable pub read_field : Message M → Cursor → Result Fault (Message M × Cursor)
      read_field x c = do p ← read_tag c; dispatch (switch p.0 p.1 x.body p.2) x c

      unfoldable pub unmarshal_loop : ℕ → Message M → Cursor → Result Fault (Message M)
      unmarshal_loop zero x c = err out_of_fuel
      unmarshal_loop (suc fuel) x c = elim (unread c) [
        | [] ↦ ok x
        | _ ∷ _ ↦ read_field x c >>= λ p. unmarshal_loop fuel p.0 p.1
      ]

      -- `x == nil`
      unfoldable pub unmarshal_of : Bytes → Option (Message M) → Result Fault (Option (Message M))
      unmarshal_of input none = ok none
      unmarshal_of input (some x) =
          unmarshal_loop (suc (length input)) x (cursor 0 input) >>= λ y. ok (some y)

-- A message without unknown fields.
abbrev pub known : {M : Type 0} → M → Message M
known m = record { body = m; unknown_fields = [] }

-- `marshal` writes the message `x` in as many bytes as `size` says, and `unmarshal` makes `x` of them.
abbrev pub Restores :
    {M : Type 0}
    → (Option M → ℕ)
    → (Bytes → Option M → Result Halt Bytes)
    → (Bytes → Option M → Result Fault (Option M))
    → M
    → M
    → Type 0
Restores size marshal unmarshal fresh x =
    (bs : Bytes) × (size (some x) ≡ length bs)
    × (marshal [] (some x) ≡ ok bs)
    × (unmarshal bs (some fresh) ≡ ok (some x))

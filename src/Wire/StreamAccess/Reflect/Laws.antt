-- ===== src/Wire/StreamAccess/Reflect/Laws.antt =====
-- The fields of a `MsgRequestStreamAccess` are kept apart.
use shinzohub.Prelude.{
  same, true, Bytes, Bool, false, not, is_empty, ◌==◌, ok, ◌≡◌, ◌≢◌, inl, inr, refl, ap, sym, All,
}
use shinzohub.Sourcehub.Messages.{MsgRequestStreamAccess}
use shinzohub.Wire.Reflection.{
  find_field, FieldDescriptor, Value, string_value, enum_value, uint_value,
}
use shinzohub.Wire.Reflection.Laws.{
  SetsOnly, ClearsHas, IsFound, named, range_of-All, set_of-get_of, clear_of-has_of, set_string-ok,
  set_enum-ok, set_uint-ok,
}
use shinzohub.Wire.StreamAccess.Reflect.{
  stream_access_fields, has_stream_access, clear_stream_access, get_stream_access,
  set_stream_access, new_field_stream_access, range_stream_access,
}

stream_access_fields-SetsOnly : All (SetsOnly stream_access_fields) stream_access_fields
unfolding stream_access_fields
stream_access_fields-SetsOnly = (
  λ v x y h.
      let (n, is, put) = set_string-ok _ v x y h in
      rw (is, sym put) (refl, (inl refl, (inr refl, (inr refl, (inr refl, (inr refl, tt)))))),
  (
    λ v x y h.
        let (n, is, put) = set_enum-ok _ v x y h in
        rw (is, sym put) (refl, (inr refl, (inl refl, (inr refl, (inr refl, (inr refl, tt)))))),
    (
      λ v x y h.
          let (n, is, put) = set_string-ok _ v x y h in
          rw (is, sym put) (refl, (inr refl, (inr refl, (inl refl, (inr refl, (inr refl, tt)))))),
      (
        λ v x y h.
            let (n, is, put) = set_string-ok _ v x y h in
            rw (is, sym put) (refl, (inr refl, (inr refl, (inr refl, (inl refl, (inr refl, tt)))))),
        (
          λ v x y h.
              let (n, is, put) = set_uint-ok _ v x y h in
              rw (is, sym put)
                (refl, (inr refl, (inr refl, (inr refl, (inr refl, (inl refl, tt)))))),
          tt,
        ),
      ),
    ),
  ),
)

-- Whether a value is another than that of a new message.
is_there : Value → Bool
is_there (string_value s) = not (is_empty s)
is_there (enum_value n) = not (n == 0)
is_there (uint_value n) = not (n == 0)

stream_access_fields-ClearsHas : All ClearsHas stream_access_fields
unfolding stream_access_fields is_there
stream_access_fields-ClearsHas = (
  λ y h. ap is_there h,
  (
    λ y h. ap is_there h,
    (λ y h. ap is_there h, (λ y h. ap is_there h, (λ y h. ap is_there h, tt))),
  ),
)

-- Where neither `Set` nor `Clear` of a field of a `MsgRequestStreamAccess` panics: after `Set`, `Get`
-- of the field is the value that was set, and `Get` of a field of another name is what it was, its
-- panic included; after `Clear`, the message does not have the field, and `Get` of it is the value of
-- `NewField`.
pub set_stream_access-get_stream_access :
    (fd other : FieldDescriptor) (v : Value) (x y z : MsgRequestStreamAccess)
    → other.full_name ≢ fd.full_name
    → set_stream_access fd v x ≡ ok y
    → clear_stream_access fd x ≡ ok z
    → (get_stream_access fd y ≡ ok v)
      × (get_stream_access other y ≡ get_stream_access other x)
      × (has_stream_access fd z ≡ ok false)
      × (get_stream_access fd z ≡ new_field_stream_access fd)
unfolding set_stream_access get_stream_access clear_stream_access has_stream_access
    new_field_stream_access
set_stream_access-get_stream_access fd other v x y z ne h k =
    let apart = stream_access_fields-SetsOnly in
    let (back, others) = set_of-get_of stream_access_fields fd v x y apart h in
    let (gone, fresh) =
      clear_of-has_of stream_access_fields fd x z apart stream_access_fields-ClearsHas k in
    (back, others other ne, gone, fresh)

stream_access_fields-IsFound : All (IsFound stream_access_fields) stream_access_fields
unfolding stream_access_fields find_field same
stream_access_fields-IsFound = (refl, (refl, (refl, (refl, (refl, tt)))))

-- Each field that `Range` reports is one that the message has, with the value that `Get` gives,
-- wherever the function stops.
pub range_stream_access-All :
    (f : Bytes → Value → Bool) (x : MsgRequestStreamAccess)
    → All
        (λ p.
          (has_stream_access (named p.0) x ≡ ok true) × (get_stream_access (named p.0) x ≡ ok p.1))
        (range_stream_access f x)
unfolding range_stream_access has_stream_access get_stream_access
range_stream_access-All f x =
    range_of-All stream_access_fields stream_access_fields f x stream_access_fields-IsFound

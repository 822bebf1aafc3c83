-- ===== src/Wire/Reflection.antt =====
-- The reflection of the messages of shinzonetwork/sourcehub/v1: what `Has`, `Clear`, `Get`, `Set`,
-- `Mutable`, `NewField` and `Range` do for a list of fields. Each switches on the field's full name.
pub mod Laws
use shinzohub.Prelude.{
  ℕ, List, [], ◌∷◌, ◌++◌, Bool, true, false, not, Bytes, is_empty, same, ◌==◌, if◌then◌else◌,
  Result, ok, err, and_then,
}

-- `protoreflect.FieldDescriptor`, as far as it is asked.
pub record FieldDescriptor : Type 0 where
  pub full_name : Bytes
  pub is_extension : Bool

-- `protoreflect.Value`, of the kinds that the fields have. An enumeration's number is a bit pattern.
pub data Value : Type 0 where
  string_value : Bytes → Value
  enum_value uint_value : ℕ → Value

pub data Panic : Type 0 where
  no_extensions wrong_kind : Panic
  no_field not_mutable : Bytes → Panic

-- The cases of one field in the seven switches.
pub record Field (M : Type 0) : Type 0 where
  pub name : Bytes
  pub has : M → Bool
  pub get : M → Value
  pub set : Value → M → Result Panic M
  pub new_field : Value

-- `value.Interface().(string)`, `value.Enum()` and `value.Uint()`, with the assignment.
unfoldable pub set_string : {M : Type 0} → (Bytes → M → M) → Value → M → Result Panic M
set_string put (string_value s) x = ok (put s x)
set_string put _ x = err wrong_kind

unfoldable pub set_enum : {M : Type 0} → (ℕ → M → M) → Value → M → Result Panic M
set_enum put (enum_value v) x = ok (put v x)
set_enum put _ x = err wrong_kind

unfoldable pub set_uint : {M : Type 0} → (ℕ → M → M) → Value → M → Result Panic M
set_uint put (uint_value v) x = ok (put v x)
set_uint put _ x = err wrong_kind

module _ {M : Type 0} where
  abbrev pub string_field : Bytes → (M → Bytes) → (Bytes → M → M) → Field M
  string_field n read put = record {
    name = n;
    has = λ x. not (is_empty (read x));
    get = λ x. string_value (read x);
    set = set_string put;
    new_field = string_value [];
  }

  abbrev pub enum_field : Bytes → (M → ℕ) → (ℕ → M → M) → Field M
  enum_field n read put = record {
    name = n;
    has = λ x. not (read x == 0);
    get = λ x. enum_value (read x);
    set = set_enum put;
    new_field = enum_value 0;
  }

  abbrev pub uint_field : Bytes → (M → ℕ) → (ℕ → M → M) → Field M
  uint_field n read put = record {
    name = n;
    has = λ x. not (read x == 0);
    get = λ x. uint_value (read x);
    set = set_uint put;
    new_field = uint_value 0;
  }

  -- `switch fd.FullName()`, with the panics of `default`.
  unfoldable pub find_field : FieldDescriptor → List (Field M) → Result Panic (Field M)
  find_field fd [] = if fd.is_extension then err no_extensions else err (no_field fd.full_name)
  find_field fd (f ∷ fs) = if same fd.full_name f.name then ok f else find_field fd fs

  unfoldable pub has_of : List (Field M) → FieldDescriptor → M → Result Panic Bool
  has_of fields fd x = and_then (find_field fd fields) (λ f. ok (f.has x))

  unfoldable pub get_of : List (Field M) → FieldDescriptor → M → Result Panic Value
  get_of fields fd x = and_then (find_field fd fields) (λ f. ok (f.get x))

  unfoldable pub set_of : List (Field M) → FieldDescriptor → Value → M → Result Panic M
  set_of fields fd v x = and_then (find_field fd fields) (λ f. f.set v x)

  -- A field is cleared by the assignment of the value that it has in a new message.
  unfoldable pub clear_of : List (Field M) → FieldDescriptor → M → Result Panic M
  clear_of fields fd x = and_then (find_field fd fields) (λ f. f.set f.new_field x)

  unfoldable pub new_field_of : List (Field M) → FieldDescriptor → Result Panic Value
  new_field_of fields fd = and_then (find_field fd fields) (λ f. ok f.new_field)

  unfoldable pub mutable_of : List (Field M) → FieldDescriptor → Result Panic Value
  mutable_of fields fd = and_then (find_field fd fields) (λ f. err (not_mutable f.name))

  -- The calls of `f`, which stop where it returns false.
  unfoldable pub range_of : List (Field M) → (Bytes → Value → Bool) → M → List (Bytes × Value)
  range_of [] f x = []
  range_of (a ∷ more) f x =
      let rest = range_of more f x in
      if a.has x then (a.name, a.get x) ∷ (if f a.name (a.get x) then rest else []) else rest

-- ===== src/Wire/Reader/Within.antt =====
-- That the readers get on with their input, whatever it is.
use Prim.Native.Nat.{bit_or}
use shinzohub.Prelude.{
  ℕ, zero, suc, ◌+◌, ◌*◌, ◌/◌, ◌%◌, ◌^◌, ◌≤◌, ◌<◌, ◌≡◌, ◌≢◌, ap, arith, List, [], ◌∷◌, Bool, true,
  false, ◌||◌, ◌==◌, Bytes, length, All, ltb, leb, if◌then◌else◌, Result, ok, err, Option, none,
  some, Bool-cases, inl, inr,
}
use shinzohub.Wire.Reader.{
  Fault, Cursor, cursor, unread, read_number, read_varint, split_tag, read_tag, drop, read_slice,
  read_bytes, text_case, number_case, select, ◌>>=◌, int_overflow, unexpected_eof, invalid_length,
  end_group, out_of_fuel, illegal_tag, wrong_wire_type, is_negative,
}

-- A result that leaves less than `k`, by the measure `left`, or an error that Go has.
unfoldable pub Within : {B : Type 0} → (B → ℕ) → ℕ → Result Fault B → Type 0
Within left k (ok b) = left b < k
Within left k (err e) = e ≢ out_of_fuel

abbrev pub rest_of : {A : Type 0} → A × Cursor → ℕ
rest_of p = length (unread p.1)

abbrev pub rest_after_tag : ℕ × ℕ × Cursor → ℕ
rest_after_tag p = length (unread p.2)

err_injective : {A : Type 0} {d e : Fault} → ◌≡◌ {A = Result Fault A} (err d) (err e) → d ≡ e
err_injective {d = d} p = ap (λ r. elim r [ ok x ↦ d | err x ↦ x ]) p

pub bind-Within :
    {A B : Type 0} (left : A → ℕ) (left' : B → ℕ) (k k' : ℕ) (r : Result Fault A)
    (f : A → Result Fault B)
    → Within left k r
    → ((a : A) → left a < k → Within left' k' (f a))
    → Within left' k' (r >>= f)
unfolding Within
bind-Within left left' k k' (ok a) f h g = g a h
bind-Within left left' k k' (err e) f h g = h

-- A result that is not out of fuel, and nothing is left to be said of it.
pub ne-Within : {B : Type 0} (r : Result Fault B) → r ≢ err out_of_fuel → Within (λ _. 0) 1 r
unfolding Within
ne-Within (ok b) h = omega arith
ne-Within (err e) h = λ p. h (ap err p)

pub Within-ne :
    {A B : Type 0} (left : A → ℕ) (k : ℕ) (r : Result Fault A) (f : A → Result Fault B)
    → Within left k r
    → ((a : A) → left a < k → f a ≢ err out_of_fuel)
    → (r >>= f) ≢ err out_of_fuel
unfolding Within
Within-ne left k (ok a) f h g = g a h
Within-ne left k (err e) f h g = λ p. h (err_injective p)

pub if_Within :
    {B : Type 0} (left : B → ℕ) (k : ℕ) (b : Bool) (x y : Result Fault B)
    → Within left k x
    → Within left k y
    → Within left k (if b then x else y)
if_Within left k true x y h g = h
if_Within left k false x y h g = g

pub weaken_Within :
    {B : Type 0} (left : B → ℕ) (j k : ℕ) (r : Result Fault B)
    → j ≤ k
    → Within left j r
    → Within left k r
unfolding Within
weaken_Within left j k (ok b) le h = omega arith
weaken_Within left j k (err e) le h = h

overflow-ne : int_overflow ≢ out_of_fuel
overflow-ne p = cc

pub eof-ne : unexpected_eof ≢ out_of_fuel
eof-ne p = cc

pub length-ne : invalid_length ≢ out_of_fuel
length-ne p = cc

read_number-Within :
    (m : ℕ) (bs : Bytes) (i acc shift : ℕ)
    → Within rest_of (length bs) (read_number m bs i acc shift)
unfolding read_number Within
read_number-Within m [] i acc shift = if_Within rest_of 0 (leb 64 shift) _ _ overflow-ne eof-ne
read_number-Within m (b ∷ bs) i acc shift =
    let acc' = bit_or acc (b % 128 * 2 ^ shift % m) in
    if_Within rest_of (suc (length bs)) (leb 64 shift) _ _ overflow-ne (
      if_Within rest_of (suc (length bs)) (ltb b 128) (ok (acc', cursor (i + 1) bs)) _ (omega arith)
        (weaken_Within rest_of (length bs) _ _ (omega arith)
          (read_number-Within m bs (i + 1) acc' (shift + 7))))

pub read_varint-Within : (m : ℕ) (c : Cursor) → Within rest_of (length (unread c)) (read_varint m c)
unfolding read_varint
read_varint-Within m (cursor i bs) = read_number-Within m bs i 0 0

split_tag-Within :
    (wire : ℕ) (c : Cursor) (k : ℕ)
    → length (unread c) < k
    → Within rest_after_tag k (split_tag wire c)
unfolding split_tag Within
split_tag-Within wire c k h =
    let number = wire / 8 % 2 ^ 32 in
    if_Within rest_after_tag k (wire % 8 == 4) (err end_group) _ (λ p. cc)
      (if_Within rest_after_tag k ((number == 0) || leb (2 ^ 31) number)
        (err (illegal_tag number wire)) (ok (number, wire % 8, c)) (λ p. cc) h)

pub read_tag-Within : (c : Cursor) → Within rest_after_tag (length (unread c)) (read_tag c)
unfolding read_tag
read_tag-Within c =
    bind-Within rest_of rest_after_tag (length (unread c)) (length (unread c))
      (read_varint (2 ^ 64) c) (λ p. split_tag p.0 p.1) (read_varint-Within (2 ^ 64) c)
      (λ p h. split_tag-Within p.0 p.1 _ h)

pub length-drop : (n : ℕ) (bs : Bytes) → length (drop n bs) + n ≤ length bs + n
length-drop n [] = omega arith
length-drop zero (b ∷ bs) = omega arith
length-drop (suc n) (b ∷ bs) = omega (arith, length-drop n bs)

pub read_slice-Within :
    (n : ℕ) (c : Cursor) → Within rest_of (suc (length (unread c))) (read_slice n c)
unfolding read_slice Within
read_slice-Within n (cursor i bs) =
    if_Within rest_of (suc (length bs)) (is_negative n || is_negative (i + n)) (err invalid_length)
      _ length-ne
      (if_Within rest_of (suc (length bs)) (ltb (length bs) n) (err unexpected_eof) _ eof-ne
        (omega (arith, length-drop n bs)))

pub read_bytes-Within : (c : Cursor) → Within rest_of (length (unread c)) (read_bytes c)
unfolding read_bytes
read_bytes-Within c =
    bind-Within rest_of rest_of (length (unread c)) (length (unread c)) (read_varint (2 ^ 64) c)
      (λ p. read_slice p.0 p.1) (read_varint-Within (2 ^ 64) c)
      (λ p h. weaken_Within rest_of _ _ _ (omega arith) (read_slice-Within p.0 p.1))

-- A case of a switch, and a switch, that get on with their input.
module _ {M : Type 0} (number wire_type : ℕ) (c : Cursor) where
  pub text_case-Within :
      (put : Bytes → M) → Within rest_of (length (unread c)) (text_case number wire_type c put)
  unfolding text_case Within
  text_case-Within put =
      if_Within rest_of _ (wire_type == 2) _ (err (wrong_wire_type number wire_type))
        (bind-Within rest_of rest_of _ _ (read_bytes c) (λ p. ok (put p.0, p.1))
          (read_bytes-Within c) (λ p h. h))
        (λ p. cc)

  pub number_case-Within :
      (m : ℕ) (put : ℕ → M)
      → Within rest_of (length (unread c)) (number_case number wire_type m c put)
  unfolding number_case Within
  number_case-Within m put =
      if_Within rest_of _ (wire_type == 0) _ (err (wrong_wire_type number wire_type))
        (bind-Within rest_of rest_of _ _ (read_varint m c) (λ p. ok (put p.0, p.1))
          (read_varint-Within m c) (λ p h. h))
        (λ p. cc)

-- No more is left than before; `none` is another matter.
unfoldable pub Moves : {M : Type 0} → ℕ → Option (Result Fault (M × Cursor)) → Type 0
Moves k none = Unit
Moves k (some r) = Within rest_of (suc k) r

pub select-Moves :
    {M : Type 0} (k number : ℕ) (cases : List (ℕ × Result Fault (M × Cursor)))
    → All (λ p. Within rest_of k p.1) cases
    → Moves k (select number cases)
unfolding select Moves
select-Moves k number [] h = tt
select-Moves k number ((j, r) ∷ cases) h = elim (Bool-cases (number == j)) [
  | inl e ↦ rw e (weaken_Within rest_of k (suc k) r (omega arith) h.0)
  | inr e ↦ rw e (select-Moves k number cases h.1)
]

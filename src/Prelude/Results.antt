-- ===== src/Prelude/Results.antt =====
-- Go's `(T, error)` results, and code that changes a state `S` and may return an error. What was
-- written before an error stays written, so the state comes back beside the error too.
use mathlib.Core.Path.{◌≡◌, refl, ap}
use mathlib.Core.Bool.{Bool, true, false}
use mathlib.Core.Logic.{◌⊎◌, inl, inr}
use native.Mathlib.Omega.{arith}
use shinzohub.Prelude.Tests.{if◌then◌else◌}

pub data Result (E A : Type 0) : Type 0 where
  ok : A → Result E A
  err : E → Result E A

abbrev pub and_then : {E A B : Type 0} → Result E A → (A → Result E B) → Result E B
and_then (ok a) f = f a
and_then (err e) f = err e

abbrev pub check : {E : Type 0} → Bool → E → Result E (Unit {0})
check true e = ok tt
check false e = err e

abbrev pub is_ok : {E A : Type 0} → Result E A → Bool
is_ok (ok a) = true
is_ok (err e) = false

-- `return …, wrap(err)`
abbrev pub map_err : {E F A : Type 0} → (E → F) → Result E A → Result F A
map_err w (ok a) = ok a
map_err w (err e) = err (w e)

-- A chain that succeeds: so did its first step, and the rest on its result.
pub and_then-ok :
    {E A B : Type 0} (r : Result E A) (f : A → Result E B) (b : B)
    → and_then r f ≡ ok b
    → (a : A) × (r ≡ ok a) × (f a ≡ ok b)
and_then-ok (ok a) f b h = (a, refl, h)
and_then-ok (err e) f b h = absurd (cc)

pub ok_injective : {E A : Type 0} (a b : A) → ◌≡◌ {A = Result E A} (ok a) (ok b) → a ≡ b
ok_injective a b p = ap (λ r. elim r [ ok x ↦ x | err e ↦ a ]) p

-- A guard that has let a call pass.
pub guard-ok :
    {E A : Type 0} (b : Bool) (e : E) (r : Result E A) (a : A)
    → (if b then err e else r) ≡ ok a
    → (b ≡ false) × (r ≡ ok a)
guard-ok true e r a h = absurd (cc h)
guard-ok false e r a h = (refl, h)

-- The branch that was taken.
pub branch_cases :
    {A : Type 0} (b : Bool) (x y r : A)
    → (if b then x else y) ≡ r
    → ((b ≡ true) × (x ≡ r)) ⊎ ((b ≡ false) × (y ≡ r))
branch_cases true x y r h = inl (refl, h)
branch_cases false x y r h = inr (refl, h)

pub map_err-ok :
    {E F A : Type 0} (w : E → F) (r : Result E A) (a : A) → map_err w r ≡ ok a → r ≡ ok a
map_err-ok w (ok b) a h = ground (arith, h)
map_err-ok w (err e) a h = absurd (cc)

abbrev pub Exec : Type 0 → Type 0 → Type 0 → Type 0
Exec S E A = S → Result E A × S

module _ {S E : Type 0} where
  abbrev pub pure : {A : Type 0} → A → Exec S E A
  pure a s = (ok a, s)

  abbrev pub fail : {A : Type 0} → E → Exec S E A
  fail e s = (err e, s)

  abbrev pub lift : {A : Type 0} → Result E A → Exec S E A
  lift r s = (r, s)

  abbrev pub gets : {A : Type 0} → (S → A) → Exec S E A
  gets f s = (ok (f s), s)

  abbrev pub modify : (S → S) → Exec S E (Unit {0})
  modify f s = (ok tt, f s)

  -- `if !b { return e }`
  abbrev pub guard : Bool → E → Exec S E (Unit {0})
  guard b e s = (check b e, s)

-- What follows a call runs on the state that the call left, unless it failed.
abbrev pub resume : {S E A B : Type 0} → Result E A × S → (A → Exec S E B) → Result E B × S
resume (ok a, s) f = f a s
resume (err e, s) f = (err e, s)

infixl 5 ◌>>=◌ ◌>>◌
abbrev pub ◌>>=◌ : {S E A B : Type 0} → Exec S E A → (A → Exec S E B) → Exec S E B
◌>>=◌ m f s = resume (m s) f

abbrev pub ◌>>◌ : {S E A B : Type 0} → Exec S E A → Exec S E B → Exec S E B
m >> k = m >>= λ _. k

pub Result-cases :
    {E A : Type 0} (r : Result E A) → ((e : E) × (r ≡ err e)) ⊎ ((a : A) × (r ≡ ok a))
Result-cases (ok a) = inr (a, refl)
Result-cases (err e) = inl (e, refl)

-- How a call ends that has left the state alone.
abbrev pub Ends : {S E A : Type 0} → Result E A × S → S → Type 0
Ends {E = E} {A = A} r s = ((e : E) × (r ≡ (err e, s))) ⊎ ((a : A) × (r ≡ (ok a, s)))

pub reads_Ends : {S E A : Type 0} (r : Result E A × S) (s : S) → r.1 ≡ s → Ends r s
reads_Ends (ok a, t) s p = inr (a, cc p)
reads_Ends (err e, t) s p = inl (e, cc p)

-- A call that fails and leaves the state alone.
abbrev pub Fails : {S E A : Type 0} → Result E A × S → S → Type 0
Fails {E = E} r s = (e : E) × (r ≡ (err e, s))

-- A sequence that succeeds: so did its first call, and what follows on the state that the call left.
pub resume-ok :
    {S E A B : Type 0} (m : Result E A × S) (f : A → Exec S E B) (b : B) (u : S)
    → resume m f ≡ (ok b, u)
    → (a : A) × (t : S) × (m ≡ (ok a, t)) × (f a t ≡ (ok b, u))
resume-ok (ok a, t) f b u h = (a, t, refl, h)
resume-ok (err e, t) f b u h = absurd (cc)

-- The same after a read whose error is wrapped.
pub resume-map_err :
    {S E F A B : Type 0} (w : E → F) (r : Result E A) (s : S) (f : A → Exec S F B) (b : B) (u : S)
    → resume (map_err w r, s) f ≡ (ok b, u)
    → (a : A) × (r ≡ ok a) × (f a s ≡ (ok b, u))
resume-map_err w (ok a) s f b u h = (a, refl, h)
resume-map_err w (err e) s f b u h = absurd (cc)

-- A call that keeps a property of the state, failed or not.
abbrev pub Keeps : {S E A : Type 0} → (S → Type 0) → Exec S E A → Type 0
Keeps {S = S} P m = (s : S) → P s → P (m s).1

module _ {S E : Type 0} (P : S → Type 0) where
  pub Keeps-resume :
      {A B : Type 0} (m : Result E A × S) (f : A → Exec S E B)
      → P m.1
      → ((a : A) → Keeps P (f a))
      → P (resume m f).1
  Keeps-resume (ok a, s) f p h = h a s p
  Keeps-resume (err e, s) f p h = p

  pub Keeps-bind :
      {A B : Type 0} (m : Exec S E A) (f : A → Exec S E B)
      → Keeps P m
      → ((a : A) → Keeps P (f a))
      → Keeps P (m >>= f)
  Keeps-bind m f h g s p = Keeps-resume (m s) f (h s p) g

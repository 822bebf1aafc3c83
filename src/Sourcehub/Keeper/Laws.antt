-- ===== src/Sourcehub/Keeper/Laws.antt =====
-- The keeper's store: a write is seen under its own key, and under no key that begins otherwise.
use shinzohub.Prelude.{ℕ, Bytes, some, [], ◌∷◌, ◌≡◌, ◌≢◌, ap, same_refl, ne→same}
use shinzohub.Sourcehub.State.{State}
use shinzohub.Sourcehub.Keeper.{set_key, get_string}

abbrev pub head_or_zero : Bytes → ℕ
head_or_zero [] = 0
head_or_zero (x ∷ xs) = x

pub set_key_self : (k v : Bytes) (s : State) → (set_key k v s).store k ≡ some v
unfolding set_key
set_key_self k v s = rw (same_refl k)

pub set_key-other :
    (k v j : Bytes)
    → head_or_zero j ≢ head_or_zero k
    → (s : State) → (set_key k v s).store j ≡ s.store j
unfolding set_key
set_key-other k v j ne s = rw (ne→same j k (λ e. ne (ap head_or_zero e)))

pub get_string-set_key : (k v : Bytes) (s : State) → get_string k (set_key k v s) ≡ v
unfolding get_string
get_string-set_key k v s = rw (set_key_self k v s, get_string)

pub get_string-set_key_other :
    (k v j : Bytes)
    → head_or_zero j ≢ head_or_zero k
    → (s : State) → get_string j (set_key k v s) ≡ get_string j s
unfolding get_string
get_string-set_key_other k v j ne s = rw (set_key-other k v j ne s, get_string)

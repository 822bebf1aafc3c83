-- ===== src/App/Filter/Laws.antt =====
-- The filter of app/decorators/msg_filter_template.go finds what is blocked at every depth.
use shinzohub.Prelude.{
  Bytes, true, List, [], ◌∷◌, same, eq→same, same→eq, ◌≡◌, ◌↔◌, inl, inr, refl, Any, Bool-cases,
  arith,
}
use shinzohub.App.Filter.{
  TxMsg, plain, exec, unreadable_exec, TxMsgs, end, next, message_name, exec_name, is_blocked,
  is_disallowed, has_disallowed_message,
}

-- Where a message stands that the filter must find: in the list itself, or in the messages of an
-- `authz.MsgExec`, at any depth.
module _ (blocked : List Bytes) where
  pub IsBlocked : Bytes → Type 0
  IsBlocked name = Any (λ b. name ≡ b) blocked

  mutual
    pub data IsOffending : TxMsg → Type 0 where
      by_name : {m : TxMsg} → IsBlocked (message_name m) → IsOffending m
      unreadable : IsOffending unreadable_exec
      inside : {ms : TxMsgs} → Holds ms → IsOffending (exec ms)

    pub data Holds : TxMsgs → Type 0 where
      first : {m : TxMsg} {ms : TxMsgs} → IsOffending m → Holds (next m ms)
      later : {m : TxMsg} {ms : TxMsgs} → Holds ms → Holds (next m ms)

is_blocked→ :
    (blocked : List Bytes) (name : Bytes) → is_blocked blocked name ≡ true → IsBlocked blocked name
unfolding is_blocked IsBlocked
is_blocked→ [] name h = cc
is_blocked→ (b ∷ rest) name h = elim (Bool-cases (same name b)) [
  | inl e ↦ inl (same→eq name b e)
  | inr e ↦ inr (is_blocked→ rest name (rw e at h))
]

→is_blocked :
    (blocked : List Bytes) (name : Bytes) → IsBlocked blocked name → is_blocked blocked name ≡ true
unfolding is_blocked IsBlocked
→is_blocked [] name h = elim h [ ]
→is_blocked (b ∷ rest) name (inl e) = rw (eq→same name b e) refl
→is_blocked (b ∷ rest) name (inr more) = rw (→is_blocked rest name more) (ground arith)

module _ (blocked : List Bytes) where
  mutual
    unfolding is_disallowed has_disallowed_message

    disallowed→ : (m : TxMsg) → is_disallowed blocked m ≡ true → IsOffending blocked m
    disallowed→ (plain name) h = by_name (is_blocked→ blocked name h)
    disallowed→ (exec ms) h = elim (Bool-cases (has_disallowed_message blocked ms)) [
      | inl e ↦ inside (has→ ms e)
      | inr e ↦ by_name (is_blocked→ blocked exec_name (rw e at h))
    ]
    disallowed→ unreadable_exec h = unreadable

    has→ : (ms : TxMsgs) → has_disallowed_message blocked ms ≡ true → Holds blocked ms
    has→ end h = absurd (cc)
    has→ (next m ms) h = elim (Bool-cases (is_disallowed blocked m)) [
      | inl e ↦ first (disallowed→ m e)
      | inr e ↦ later (has→ ms (rw e at h))
    ]

  mutual
    unfolding is_disallowed has_disallowed_message message_name

    →disallowed : (m : TxMsg) → IsOffending blocked m → is_disallowed blocked m ≡ true
    →disallowed (plain name) (by_name h) = →is_blocked blocked name h
    →disallowed (exec ms) (by_name h) = rw (→is_blocked blocked exec_name h) (ground arith)
    →disallowed (exec ms) (inside h) = rw (→has ms h) refl
    →disallowed unreadable_exec h = refl

    →has : (ms : TxMsgs) → Holds blocked ms → has_disallowed_message blocked ms ≡ true
    →has end h = elim h [ ]
    →has (next m ms) (first h) = rw (→disallowed m h) refl
    →has (next m ms) (later h) = rw (→has ms h) (ground arith)

-- The filter refuses a list of messages just when, at some depth of nested `authz.MsgExec`s, there is
-- a message of a blocked type or an `authz.MsgExec` that cannot be read.
pub has_disallowed_message_iff :
    (blocked : List Bytes) (ms : TxMsgs)
    → (has_disallowed_message blocked ms ≡ true) ↔ Holds blocked ms
has_disallowed_message_iff blocked ms = (has→ blocked ms, →has blocked ms)

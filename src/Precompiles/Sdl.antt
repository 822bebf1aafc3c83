-- ===== src/Precompiles/Sdl.antt =====
-- The regular expression of app/precompiles/viewregistry/methods.go, `\btype\s+([A-Za-z0-9_]+)\b`: its
-- leftmost match in a text, as the text before the captured name, the name, and the text after it.
pub mod Laws
use shinzohub.Prelude.{
  span, ℕ, Bytes, Bool, true, false, Option, none, some, [], ◌∷◌, ◌++◌, codes, is_empty, leb, ◌==◌,
  ◌&&◌, ◌||◌, not, if◌then◌else◌,
}

-- `[A-Za-z0-9_]`, the word characters of `\b` too.
unfoldable pub is_word : ℕ → Bool
is_word c =
    (leb b'0' c && leb c b'9')
    || ((leb b'A' c && leb c b'Z') || ((leb b'a' c && leb c b'z') || (c == b'_')))

-- `\s`
unfoldable pub is_blank : ℕ → Bool
is_blank c = (c == 9) || ((c == 10) || ((c == 12) || ((c == 13) || (c == 32))))

unfoldable pub strip_prefix : Bytes → Bytes → Option Bytes
strip_prefix [] s = some s
strip_prefix (p ∷ ps) [] = none
strip_prefix (p ∷ ps) (c ∷ cs) = let rest = strip_prefix ps cs in if p == c then rest else none

pub record Match : Type 0 where
  pub before : Bytes
  pub name : Bytes
  pub after : Bytes

abbrev pub keyword : Bytes
keyword = codes "type"

-- The match after the keyword. The name is taken as far as it goes, so it ends at a word boundary.
unfoldable pub match_rest : Bytes → Option Match
match_rest rest =
    let blanks = span is_blank rest in
    let word = span is_word blanks.1 in
    if is_empty blanks.0
    then none
    else if is_empty word.0
    then none
    else some (record { before = keyword ++ blanks.0; name = word.0; after = word.1 })

unfoldable pub match_here : Bytes → Option Match
match_here s = elim (strip_prefix keyword s) [ none ↦ none | some rest ↦ match_rest rest ]

abbrev pub shift : ℕ → Match → Match
shift c m = record m { before = c ∷ m.before }

-- The search from a place whose last character was a word character, or not.
unfoldable pub find_from : Bool → Bytes → Option Match
find_from inside [] = none
find_from inside (c ∷ cs) =
    let later = find_from (is_word c) cs in
    elim (if inside then none else match_here (c ∷ cs)) [
      | some m ↦ some m
      | none ↦ elim later [ none ↦ none | some m ↦ some (shift c m) ]
    ]

-- `re.FindStringSubmatch`
unfoldable pub find_type : Bytes → Option Match
find_type = find_from false

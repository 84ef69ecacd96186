-- ===== src/Python/Find.antt =====
-- Python's searches in a text: `startswith`, `in`, `find`, `split` and `splitlines`.
use Prim.Native.Char.{Char, code}
use Prim.Native.String.{[] as nil, ◌∷◌ as cons, count}
use qontinui_stack.Prelude.{
  ℕ, zero, suc, ◌-◌, String, ◌≡◌, refl, Bool, true, false, ◌&&◌, ◌||◌, Option, none, some, List, [],
  ◌∷◌, leb, nat_eq, if◌then◌else◌,
}
use qontinui_stack.Python.Text.{is_space, is_empty}

-- What follows a prefix.
unfoldable pub drop_prefix : String → String → Option String
drop_prefix nil s = some s
drop_prefix (cons p prefix) nil = none
drop_prefix (cons p prefix) (cons c s) =
    let rest = drop_prefix prefix s in if nat_eq (code p) (code c) then rest else none

abbrev pub is_found {ℓ} : {A : Type ℓ} → Option A → Bool
is_found none = false
is_found (some a) = true

unfoldable pub starts_with : String → String → Bool
unfolding drop_prefix
starts_with prefix s = is_found (drop_prefix prefix s)

-- needle in s, for a needle that is not empty
unfoldable pub contains : String → String → Bool
unfolding starts_with
contains needle nil = false
contains needle (cons c s) = starts_with needle (cons c s) || contains needle s

-- The texts after each occurrence of a marker, as `find` from the end of the last one gives them;
-- `skip` counts the characters of the last occurrence that are still to come.
unfoldable pub after_each : String → ℕ → String → List String
unfolding drop_prefix
after_each marker skip nil = []
after_each marker (suc skip) (cons c s) = after_each marker skip s
after_each marker zero (cons c s) = elim (drop_prefix marker (cons c s)) [
  | none ↦ after_each marker zero s
  | some rest ↦ rest ∷ after_each marker (count marker - 1) s
]

-- The code points at which `str.splitlines` breaks.
abbrev pub is_break : ℕ → Bool
is_break c =
    leb 10 c && leb c 13
    || leb 28 c && leb c 30
    || nat_eq c 0x85
    || nat_eq c 0x2028
    || nat_eq c 0x2029

abbrev onto_first : Char → List String → List String
onto_first c [] = cons c nil ∷ []
onto_first c (line ∷ lines) = cons c line ∷ lines

abbrev pub at_code : ℕ → String → Bool
at_code n nil = false
at_code n (cons c s) = nat_eq (code c) n

-- A carriage return before a line feed is one break with it.
unfoldable pub splitlines : String → List String
splitlines nil = []
splitlines (cons c s) =
    let rest = splitlines s in
    if nat_eq (code c) 13 && at_code 10 s
    then rest
    else (if is_break (code c) then "" ∷ rest else onto_first c rest)

abbrev first_line : List String → String
first_line [] = ""
first_line (line ∷ lines) = line

-- s.splitlines()[0] if s else ""
unfoldable pub line_of : String → String
unfolding splitlines
line_of s = first_line (splitlines s)

abbrev close_word : String → List String → List String
close_word word rest = if is_empty word then rest else word ∷ rest

-- The word that a text starts with, if any, and the words after it.
words_from : String → String × List String
unfolding is_space
words_from nil = ("", [])
words_from (cons c s) =
    let (word, rest) = words_from s in
    if is_space c then ("", close_word word rest) else (cons c word, rest)

-- s.split()
unfoldable pub words : String → List String
unfolding words_from
words s = let (word, rest) = words_from s in close_word word rest

splitlines_test : splitlines "a\nb\r\n\nc" ≡ "a" ∷ "b" ∷ "" ∷ "c" ∷ []
unfolding splitlines
splitlines_test = refl

after_each_test : after_each "ab" 0 "xabyabab" ≡ "yabab" ∷ "ab" ∷ "" ∷ []
unfolding after_each
after_each_test = refl

words_test : words "  a bc\n d " ≡ "a" ∷ "bc" ∷ "d" ∷ []
unfolding words
words_test = refl

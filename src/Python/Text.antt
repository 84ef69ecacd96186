-- ===== src/Python/Text.antt =====
-- Python's operations on text that the programs use, by recursion on the code points.
use Prim.Native.Char.{Char, code}
use Prim.Native.String.{[] as nil, ◌∷◌ as cons, count, ◌++◌ as append}
use text.Mathlib.TextLemmas.{length-cons}
use qontinui_stack.Prelude.{
  ℕ, zero, suc, ◌≤◌, String, ◌≡◌, refl, Bool, true, false, ◌||◌, ◌&&◌, List, [], ◌∷◌, arith, leb,
  nat_eq, if◌then◌else◌,
}

-- "".join(parts), and so an f-string with these parts.
abbrev pub concat : List String → String
concat [] = ""
concat (s ∷ rest) = append s (concat rest)

-- sep.join(parts)
abbrev pub join : String → List String → String
join sep [] = ""
join sep (s ∷ []) = s
join sep (s ∷ t ∷ rest) = append s (append sep (join sep (t ∷ rest)))

-- The code points that `str.isspace` accepts, which are those of `\s`.
abbrev pub is_space_code : ℕ → Bool
is_space_code c =
    leb 9 c && leb c 13
    || leb 28 c && leb c 32
    || nat_eq c 0x85
    || nat_eq c 0xa0
    || nat_eq c 0x1680
    || leb 0x2000 c && leb c 0x200a
    || nat_eq c 0x2028
    || nat_eq c 0x2029
    || nat_eq c 0x202f
    || nat_eq c 0x205f
    || nat_eq c 0x3000

unfoldable pub is_space : Char → Bool
is_space c = is_space_code (code c)

abbrev pub is_empty : String → Bool
is_empty nil = true
is_empty (cons c s) = false

unfoldable pub lstrip : String → String
unfolding is_space
lstrip nil = ""
lstrip (cons c s) = let rest = lstrip s in if is_space c then rest else cons c s

unfoldable pub rstrip : String → String
unfolding is_space
rstrip nil = ""
rstrip (cons c s) = let rest = rstrip s in if is_empty rest && is_space c then "" else cons c rest

unfoldable pub strip : String → String
unfolding lstrip rstrip
strip s = rstrip (lstrip s)

-- s[:n]
unfoldable pub take : ℕ → String → String
take zero s = ""
take (suc n) nil = ""
take (suc n) (cons c s) = cons c (take n s)

pub count-lstrip-le : (s : String) → count (lstrip s) ≤ count s
unfolding lstrip
count-lstrip-le nil = omega arith
count-lstrip-le (cons c s) = ground (arith, count-lstrip-le s, length-cons c s)

pub count-rstrip-le : (s : String) → count (rstrip s) ≤ count s
unfolding rstrip
count-rstrip-le nil = omega arith
count-rstrip-le (cons c s) =
    ground (arith, count-rstrip-le s, length-cons c s, length-cons c (rstrip s))

pub count-take-le : (n : ℕ) (s : String) → count (take n s) ≤ n
unfolding take
count-take-le zero s = omega arith
count-take-le (suc n) nil = omega arith
count-take-le (suc n) (cons c s) = ground (arith, count-take-le n s, length-cons c (take n s))

strip_test : strip "  a b \n" ≡ "a b"
unfolding strip
strip_test = refl

join_test : join ", " ("ab" ∷ "c" ∷ []) ≡ "ab, c"
join_test = refl

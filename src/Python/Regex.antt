-- ===== src/Python/Regex.antt =====
-- `re.search` for patterns without repetition, compiled with `re.IGNORECASE`: a backtracking
-- matcher with the rest of the pattern as a continuation.
use Prim.Native.Char.{Char, code}
use Prim.Native.String.{[] as nil, ◌∷◌ as cons}
use qontinui_stack.Prelude.{
  ℕ, ◌+◌, String, ◌≡◌, refl, Bool, true, false, not, ◌&&◌, ◌||◌, Option, none, some, leb, nat_eq,
}
use qontinui_stack.Python.Text.{is_space}

pub data Regex : Type 0 where
  empty : Regex
  char : Char → Regex
  seq : Regex → Regex → Regex
  either : Regex → Regex → Regex
  maybe : Regex → Regex
  -- \b
  boundary : Regex
  -- (?=\s|$)
  before_space_or_end : Regex

-- A text without special characters, as a pattern.
unfoldable pub literal : String → Regex
literal nil = empty
literal (cons c s) = seq (char c) (literal s)

abbrev lower_letter : ℕ → Bool
lower_letter c = leb b'a' c && leb c b'z'

-- The code points that the letter `c` of a pattern accepts when case is ignored. Four letters that
-- are not ASCII fold to ASCII ones: U+0130 and U+0131 to i, U+017F to s, U+212A to k.
unfoldable pub folds_to : ℕ → ℕ → Bool
folds_to c x =
    nat_eq c x
    || lower_letter c && nat_eq (x + 32) c
    || nat_eq c b'i' && (nat_eq x 0x130 || nat_eq x 0x131)
    || nat_eq c b's' && nat_eq x 0x17f
    || nat_eq c b'k' && nat_eq x 0x212a

-- `word_code` is Python's table of the letters and digits of \w, with the underscore.
module _ (word_code : ℕ → Bool) where
  abbrev pub is_word : Option Char → Bool
  is_word none = false
  is_word (some c) = word_code (code c)

  abbrev pub head : String → Option Char
  head nil = none
  head (cons c s) = some c

  abbrev pub differ : Bool → Bool → Bool
  differ true b = not b
  differ false b = b

  abbrev at_space_or_end : String → Bool
  at_space_or_end nil = true
  at_space_or_end (cons c s) = is_space c

  match_char : ℕ → String → (Option Char → String → Bool) → Bool
  unfolding folds_to
  match_char c nil k = false
  match_char c (cons x s) k = folds_to c (code x) && k (some x) s

  -- Matches at a position, given the character before it.
  pub match_at : Regex → Option Char → String → (Option Char → String → Bool) → Bool
  unfolding match_char is_space
  match_at empty prev s k = k prev s
  match_at (char c) prev s k = match_char (code c) s k
  match_at (seq r q) prev s k = match_at r prev s (λ prev' s'. match_at q prev' s' k)
  match_at (either r q) prev s k = match_at r prev s k || match_at q prev s k
  match_at (maybe r) prev s k = match_at r prev s k || k prev s
  match_at boundary prev s k = differ (is_word prev) (is_word (head s)) && k prev s
  match_at before_space_or_end prev s k = at_space_or_end s && k prev s

  search_from : Regex → Option Char → String → Bool
  unfolding match_at
  search_from r prev nil = match_at r prev nil (λ _ _. true)
  search_from r prev (cons c s) =
      let later = search_from r (some c) s in match_at r prev (cons c s) (λ _ _. true) || later

  unfoldable pub search : Regex → String → Bool
  unfolding search_from literal
  search r s = search_from r none s

abbrev pub ascii_word : ℕ → Bool
ascii_word c =
    leb b'a' c && leb c b'z'
    || leb b'A' c && leb c b'Z'
    || leb b'0' c && leb c b'9'
    || nat_eq c b'_'

abbrev whole_word : String → Regex
whole_word s = seq boundary (seq (literal s) boundary)

search_test : search ascii_word (whole_word "please") "So PLEASE do." ≡ true
unfolding search
search_test = refl

search_inside_test : search ascii_word (whole_word "ack") "back to it" ≡ false
unfolding search
search_inside_test = refl

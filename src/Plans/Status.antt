-- ===== src/Plans/Status.antt =====
-- scripts/resolve-plan-deps.py: the status block of a plan, the stems that it depends on and its
-- lifecycle word. Python's tables of letters and digits are a parameter, in `Runtime`.
pub mod Stems
use Prim.Native.Char.{Char, code}
use Prim.Native.String.{[] as nil, ◌∷◌ as cons, count}
use qontinui_stack.Prelude.{
  ℕ, zero, suc, ◌-◌, String, ◌≡◌, refl, Bool, true, false, not, ◌&&◌, ◌||◌, Option, none, some,
  List, [], ◌∷◌, elem, leb, nat_eq, if◌then◌else◌,
}
use qontinui_stack.Prelude.Options.{◌>>=◌}
use qontinui_stack.Python.{lstrip, strip, join, is_empty, is_space}
use qontinui_stack.Python.Json.{Json, Runtime}
use qontinui_stack.Python.Sets.{add}
use qontinui_stack.Python.Regex.{is_word, head, differ, ascii_word}
use qontinui_stack.Python.Find.{
  drop_prefix, starts_with, contains, after_each, splitlines, line_of, at_code, words,
}

abbrev pub lifecycle_words : List String
lifecycle_words =
    "IN PROGRESS" ∷ "NOT STARTED" ∷ "SHIPPED" ∷ "VETTED" ∷ "DRAFT" ∷ "PARTIAL" ∷ "SUPERSEDED"
    ∷ "OBSOLETE" ∷ []

-- line[1:], without the space that may follow the ">"
abbrev unquote : String → String
unquote nil = ""
unquote (cons q nil) = ""
unquote (cons q (cons c s)) = if nat_eq (code c) b' ' then s else cons c s

unfoldable pub block_lines : List String → List String
unfolding starts_with
block_lines [] = []
block_lines (line ∷ rest) =
    let more = block_lines rest in if starts_with ">" line then unquote line ∷ more else []

abbrev starts_block : String → Bool
unfolding starts_with contains
starts_block line = starts_with ">" line && contains "**Status:" line

unfoldable pub from_block : List String → Option String
unfolding block_lines starts_block
from_block [] = none
from_block (line ∷ rest) =
    let later = from_block rest in
    if starts_block line then some (join "\n" (block_lines (line ∷ rest))) else later

unfoldable pub find_status_block : String → Option String
unfolding from_block splitlines
find_status_block text = from_block (splitlines text)

-- A place of the date at the start of a stem.
pub data Slot : Type 0 where
  digit dash : Slot

abbrev pub date_slots : List Slot
date_slots = digit ∷ digit ∷ digit ∷ digit ∷ dash ∷ digit ∷ digit ∷ dash ∷ digit ∷ digit ∷ []

abbrev pub stem_slots : List Slot
stem_slots = digit ∷ digit ∷ digit ∷ digit ∷ dash ∷ digit ∷ digit ∷ dash ∷ digit ∷ digit ∷ dash ∷ []

-- [a-z0-9]
abbrev pub slug_code : ℕ → Bool
slug_code c = leb b'a' c && leb c b'z' || leb b'0' c && leb c b'9'

abbrev pub fits : (ℕ → Bool) → Slot → ℕ → Bool
fits digit_code digit c = digit_code c
fits digit_code dash c = nat_eq c b'-'

abbrev pub prefixed : Char → Option String → Option String
prefixed c none = none
prefixed c (some s) = some (cons c s)

abbrev pub or_else : Option String → Option String → Option String
or_else none other = other
or_else (some s) other = some s

module _ (word_code digit_code : ℕ → Bool) where
  abbrev pub at_boundary : Option Char → String → Bool
  at_boundary prev s =
      differ word_code (is_word word_code prev) (is_word word_code (head word_code s))

  abbrev pub stop : Option Char → String → Option String
  stop none s = none
  stop (some prev) s = if at_boundary (some prev) s then some "" else none

  -- [a-z0-9]+(?:-[a-z0-9]+)*\b, the longest match first; `prev` is the last character of the
  -- segment, if it has one yet.
  unfoldable pub slug : Option Char → String → Option String
  slug prev nil = stop prev nil
  slug none (cons c s) =
      let more = slug (some c) s in if slug_code (code c) then prefixed c more else none
  slug (some prev) (cons c s) =
      let more = slug (some c) s in
      let next = slug none s in
      or_else
        (if slug_code (code c)
          then prefixed c more
          else (if nat_eq (code c) b'-' then prefixed c next else none))
        (stop (some prev) (cons c s))

  unfoldable pub stem_at : List Slot → String → Option String
  unfolding slug
  stem_at [] s = slug none s
  stem_at (slot ∷ slots) nil = none
  stem_at (slot ∷ slots) (cons c s) =
      let more = stem_at slots s in if fits digit_code slot (code c) then prefixed c more else none

  -- A match of _STEM_RE at a place, given the character before it.
  unfoldable pub match_stem : Option Char → String → Option String
  unfolding stem_at
  match_stem prev s = if at_boundary prev s then stem_at stem_slots s else none

  -- _STEM_RE.finditer(line); `skip` counts the characters of the last match still to come.
  unfoldable pub find_stems : Option Char → ℕ → String → List String
  unfolding match_stem
  find_stems prev skip nil = []
  find_stems prev (suc skip) (cons c s) = find_stems (some c) skip s
  find_stems prev zero (cons c s) = elim (match_stem prev (cons c s)) [
    | none ↦ find_stems (some c) zero s
    | some stem ↦ stem ∷ find_stems (some c) (count stem - 1) s
  ]

  abbrev pub add_all : List String → List String → List String
  add_all stems [] = stems
  add_all stems (stem ∷ rest) = add_all (add stem stems) rest

  unfoldable pub stems_of : List String → List String → List String
  unfolding find_stems line_of
  stems_of stems [] = stems
  stems_of stems (tail ∷ tails) =
      stems_of (add_all stems (find_stems none zero (line_of tail))) tails

  unfoldable pub parse_depends_on : String → List String
  unfolding stems_of after_each
  parse_depends_on block = stems_of [] (after_each "Depends-On:" 0 block)

  -- The \b after a word of letters.
  abbrev ends_word : String → Bool
  ends_word rest = not (is_word word_code (head word_code rest))

  first_word : List String → String → Option (String × String)
  unfolding drop_prefix
  first_word [] s = none
  first_word (word ∷ others) s =
      let later = first_word others s in
      elim (drop_prefix word s) [
        | none ↦ later
        | some rest ↦ if ends_word rest then some (word, rest) else later
      ]

  -- _LIFECYCLE_RE.search(block): the word and the text after it.
  unfoldable pub find_lifecycle : Option Char → String → Option (String × String)
  unfolding first_word
  find_lifecycle prev nil = none
  find_lifecycle prev (cons c s) =
      let later = find_lifecycle (some c) s in
      elim (if at_boundary prev (cons c s) then first_word lifecycle_words (cons c s) else none) [
        | none ↦ later
        | some found ↦ some found
      ]

  -- A date, with its point and the spaces after it, taken off the start.
  abbrev drop_slots : List Slot → String → Option String
  drop_slots [] s = some s
  drop_slots (slot ∷ slots) nil = none
  drop_slots (slot ∷ slots) (cons c s) =
      let rest = drop_slots slots s in if fits digit_code slot (code c) then rest else none

  abbrev drop_point : String → String
  drop_point nil = ""
  drop_point (cons c s) = if nat_eq (code c) b'.' then s else cons c s

  abbrev undated : String → String
  undated s = elim (drop_slots date_slots s) [ none ↦ s | some rest ↦ lstrip (drop_point rest) ]

  -- text.lstrip(chars), the characters given by a test on their codes.
  abbrev lstrip_codes : (ℕ → Bool) → String → String
  lstrip_codes strips nil = ""
  lstrip_codes strips (cons c s) =
      let rest = lstrip_codes strips s in if strips (code c) then rest else cons c s

  abbrev is_star : ℕ → Bool
  is_star c = nat_eq c b'*'

  abbrev unstarred : String → String
  unstarred s = if at_code b'*' s then lstrip (lstrip_codes is_star s) else s

  abbrev is_noise : ℕ → Bool
  is_noise c = nat_eq c b'.' || nat_eq c b':' || nat_eq c b'-' || nat_eq c b' '

  -- Whether spaces lead to a line break.
  abbrev blank_follows : String → Bool
  blank_follows nil = false
  blank_follows (cons c s) = nat_eq (code c) 10 || is_space c && blank_follows s

  -- re.split(r"\n\s*\n", after, maxsplit=1)[0]
  abbrev first_paragraph : String → String
  first_paragraph nil = ""
  first_paragraph (cons c s) =
      let rest = first_paragraph s in
      if nat_eq (code c) 10 && blank_follows s then "" else cons c rest

  abbrev or_none : String → Option String
  or_none s = if is_empty s then none else some s

  unfoldable pub summary_of : String → Option String
  unfolding words lstrip strip is_space
  summary_of after =
      let collapsed = join " " (words (first_paragraph after)) in
      or_none (strip (lstrip_codes is_noise (unstarred (undated collapsed))))

  unfoldable pub extract_lifecycle : String → Option String × Option String
  unfolding find_lifecycle summary_of
  extract_lifecycle block = elim (find_lifecycle none block) [
    | none ↦ (none, none)
    | some (word, after) ↦ (some word, summary_of after)
  ]

abbrev ascii_digit : ℕ → Bool
ascii_digit c = leb b'0' c && leb c b'9'

abbrev sample : String
sample =
    "# Plan\n\n> **Status: IN PROGRESS 2026-05-21.** Half done.\n>\n> Depends-On: 2026-06-02-foo-plan. This widens 2026-06-03.\n> History: Depends-On: 2026-06-02-foo-plan, 2026-06-04-bar-B\ntext"

sample_block : String
unfolding find_status_block
sample_block = elim (find_status_block sample) [ none ↦ "" | some block ↦ block ]

parse_depends_on_test :
    parse_depends_on ascii_word ascii_digit sample_block
    ≡ "2026-06-02-foo-plan" ∷ "2026-06-04-bar" ∷ []
unfolding parse_depends_on sample_block
parse_depends_on_test = refl

extract_lifecycle_test :
    extract_lifecycle ascii_word ascii_digit sample_block ≡ (some "IN PROGRESS", some "Half done.")
unfolding extract_lifecycle sample_block
extract_lifecycle_test = refl

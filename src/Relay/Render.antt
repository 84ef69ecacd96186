-- ===== src/Relay/Render.antt =====
-- Rendering a page (aws/lambdas/operator_pager_relay/handler.py): `_clip`, `_title_for`,
-- `_lines_for`, `_assemble`, `render`, `sns_subject`, and the patterns of `contains_asking_words`.
pub mod Bounds
pub mod Subject
pub mod Asking
use Prim.Native.Char.{Char, code}
use Prim.Native.String.{[] as nil, ◌∷◌ as cons, count, ◌++◌ as append}
use qontinui_stack.Prelude.{
  ℕ, zero, suc, ◌+◌, ◌-◌, ◌≤◌, String, ◌≡◌, refl, Bool, true, false, not, ◌&&◌, ◌||◌, Option, none,
  some, List, [], ◌∷◌, ◌++◌, length, arith, ltb, leb, nat_eq, ◌==◌, if◌then◌else◌,
}
use qontinui_stack.Prelude.Assoc.{lookup}
use qontinui_stack.Prelude.Decimal.{decimal}
use qontinui_stack.Python.{concat, join, strip, rstrip, take}
use qontinui_stack.Python.Regex.{
  Regex, char, seq, either, maybe, boundary, before_space_or_end, literal, search,
}
use qontinui_stack.Relay.Types.{condition_labels, Page}

abbrev pub closing_line : String
closing_line = "No action needed from you."

abbrev pub title_max : ℕ
title_max = 250

abbrev pub body_max : ℕ
body_max = 1024

abbrev pub sns_subject_max : ℕ
sns_subject_max = 100

abbrev pub subject_prefix : String
subject_prefix = "[PAGE] "

abbrev pub withheld_source_text : String
withheld_source_text = "(source text withheld: it was worded as a request)"

abbrev pub withheld_field : String
withheld_field = "(withheld)"

abbrev word : Regex → Regex
word r = seq boundary (seq r boundary)

abbrev one_of : String → List String → Regex
one_of s [] = literal s
one_of s (t ∷ rest) = either (literal s) (one_of t rest)

-- `_ASKING_PATTERNS`
unfoldable pub asking_patterns : List (String × Regex)
unfolding literal
asking_patterns =
    ("please", word (literal "please"))
    ∷ ("approve", word (seq (literal "approv") (one_of "e" ("al" ∷ "ed" ∷ []))))
    ∷ ("confirm", word (literal "confirm"))
    ∷ ("acknowledge", word (seq (literal "ack") (maybe (literal "nowledge"))))
    ∷ ("reply", word (literal "reply"))
    ∷ ("decide", word (literal "decide"))
    ∷ (
      "you-question",
      word
          (seq (one_of "can" ("could" ∷ "would" ∷ "will" ∷ "should" ∷ "do" ∷ [])) (literal " you")),
    )
    ∷ (
      "action-required",
      word (seq (literal "action ") (seq (maybe (literal "is ")) (literal "required"))),
    )
    ∷ (
      "needs-you",
      word (
          seq (literal "need")
            (seq (maybe (literal "s")) (seq (literal " ") (one_of "you" ("your" ∷ []))))),
    )
    ∷ ("question-mark", seq (literal "?") before_space_or_end)
    ∷ []

matching : (ℕ → Bool) → List (String × Regex) → String → List String
matching word_code [] text = []
matching word_code ((label, rx) ∷ rest) text =
    let labels = matching word_code rest text in
    if search word_code rx text then label ∷ labels else labels

-- The labels of the patterns that a text contains; `word_code` is the table of \w.
unfoldable pub contains_asking_words : (ℕ → Bool) → String → List String
unfolding matching
contains_asking_words word_code text = matching word_code asking_patterns text

pub record Rendered : Type 0 where
  pub title : String
  pub body : String
  pub asks : Bool
  pub source_text_withheld : Bool

-- text[: max(0, limit - 1)].rstrip() + "…"
unfoldable pub clip : String → ℕ → String
clip text limit =
    let text' = strip text in
    if leb (count text') limit then text' else append (rstrip (take (limit - 1) text')) "…"

abbrev or_text : String → String → String
or_text a b = if a == "" then b else a

abbrev id_or : Option String → String
id_or none = "unidentified"
id_or (some id) = or_text id "unidentified"

abbrev text_or_empty : Option String → String
text_or_empty none = ""
text_or_empty (some s) = s

abbrev found_or : Option String → String → String
found_or none s = s
found_or (some t) s = t

unfoldable pub title_for : Page → String
unfolding decimal
title_for page =
    let label =
      found_or (lookup (text_or_empty page.condition) condition_labels)
        (text_or_empty page.condition) in
    if page.kind == "drill_summary"
    then concat (
        "DRILL "
        ∷ id_or page.drill_id
        ∷ " summary: "
        ∷ decimal (length page.conditions)
        ∷ " conditions"
        ∷ [])
    else if page.kind == "drill"
    then concat ("DRILL " ∷ id_or page.drill_id ∷ ": " ∷ label ∷ [])
    else if page.kind == "resolved"
    then concat ("Resolved: " ∷ label ∷ [])
    else if page.kind == "update"
    then concat ("Update: " ∷ label ∷ [])
    else label

abbrev line_if : String → String → List String
line_if s line = if s == "" then [] else line ∷ []

unfoldable pub lines_for : Page → String → List String
lines_for page what =
    if page.kind == "drill_summary"
    then concat ("Drill summary for: " ∷ join ", " page.conditions ∷ "." ∷ [])
      ∷ (line_if what what ++ "This was a drill of the operator pager; nothing is wrong." ∷ [])
    else (if page.kind == "drill"
        then "This is a drill of the operator pager; nothing is wrong." ∷ []
        else [])
      ++ (line_if what (concat ("What happened: " ∷ what ∷ []))
          ++ (line_if page.remediation (
                concat (
                  "Automatic remediation: "
                  ∷ page.remediation
                  ∷ (if page.remediation_state == ""
                      then ""
                      else concat (" (" ∷ page.remediation_state ∷ ")" ∷ []))
                  ∷ "."
                  ∷ []))
              ++ (line_if page.agents (concat ("Agents: " ∷ page.agents ∷ []))
                  ++ concat
                      ("Signal: " ∷ or_text page.signal "unnamed" ∷ " (" ∷ page.source ∷ ")." ∷ [])
                    ∷ [])))

-- The closing line is never clipped: the head is clipped to the room beside it.
unfoldable pub assemble : Page → String → String × String
assemble page what = (
  clip (title_for page) title_max,
  append (clip (join "\n" (lines_for page what)) (body_max - count closing_line - 1))
      (append "\n" closing_line),
)

-- Every text from outside but `source`, `condition` and `conditions` is withheld.
unfoldable pub withhold : Page → Page
withhold page = record page {
  what = withheld_source_text;
  remediation = if page.remediation == "" then "" else withheld_field;
  remediation_state = "";
  agents = if page.agents == "" then "" else withheld_field;
  signal = withheld_field;
  drill_id = none;
}

module _ (word_code : ℕ → Bool) where
  -- Whether a title and a body, joined as `render` joins them, ask.
  unfoldable pub asks_in : String × String → Bool
  asks_in (title, body) = elim (contains_asking_words word_code (append title (append "\n" body))) [
    | [] ↦ false
    | label ∷ more ↦ true
  ]

  abbrev rendered_of : String × String → Bool → Rendered
  rendered_of (title, body) withheld = record {
    title = title;
    body = body;
    asks = asks_in (title, body);
    source_text_withheld = withheld;
  }

  unfoldable pub render : Page → Rendered
  render page =
      if asks_in (assemble page page.what)
      then rendered_of (assemble (withhold page) (withhold page).what) true
      else rendered_of (assemble page page.what) false

abbrev question : Char
question = Prim.Native.Char.Char.char 63 tt

-- str.encode("ascii", "replace")
unfoldable pub ascii_replace : String → String
ascii_replace nil = ""
ascii_replace (cons c s) = cons (if leb (code c) 127 then c else question) (ascii_replace s)

abbrev pub is_control : Char → Bool
is_control c = leb (code c) 0x1f || nat_eq (code c) 0x7f

abbrev blank : Char
blank = Prim.Native.Char.Char.char 32 tt

-- re.sub(r"[\x00-\x1f\x7f]+", " ", s): `inside` a run, further control characters add nothing.
unfoldable pub blank_controls : Bool → String → String
blank_controls inside nil = ""
blank_controls inside (cons c s) =
    let kept = cons c (blank_controls false s) in
    let more = blank_controls true s in
    if is_control c then (if inside then more else cons blank more) else kept

abbrev pub dot : Char
dot = Prim.Native.Char.Char.char 46 tt

-- s.replace("…", ".")
unfoldable pub dot_ellipsis : String → String
dot_ellipsis nil = ""
dot_ellipsis (cons c s) = cons (if nat_eq (code c) 0x2026 then dot else c) (dot_ellipsis s)

unfoldable pub sns_subject : String → String
sns_subject title =
    dot_ellipsis
      (clip (append subject_prefix (blank_controls false (ascii_replace title))) sns_subject_max)

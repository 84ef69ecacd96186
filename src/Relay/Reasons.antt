-- ===== src/Relay/Reasons.antt =====
-- The two patterns that aws/lambdas/operator_pager_relay/handler.py reads state reasons with,
-- `_DRILL_REASON` and `_ALARM_ARN_NAME`. No class of theirs accepts the character that follows it in
-- the pattern, so a greedy reading without backtracking gives the match of `re`.
use Prim.Native.Char.{Char, code}
use Prim.Native.String.{[] as nil, ◌∷◌ as cons, count}
use qontinui_stack.Prelude.{
  ℕ, zero, suc, ◌-◌, String, ◌≡◌, refl, Bool, false, not, ◌||◌, Option, none, some, List, [], ◌∷◌,
  ◌==◌, nat_eq, if◌then◌else◌,
}
use qontinui_stack.Python.{is_space, is_empty, lstrip}

-- The text behind a given beginning.
unfoldable pub drop_prefix : String → String → Option String
drop_prefix nil s = some s
drop_prefix (cons c p) nil = none
drop_prefix (cons c p) (cons d s) =
    let rest = drop_prefix p s in if nat_eq (code c) (code d) then rest else none

-- s.endswith(suffix)
unfoldable pub ends_with : String → String → Bool
ends_with suffix nil = suffix == ""
ends_with suffix (cons c s) = suffix == cons c s || ends_with suffix s

module _ (p : Char → Bool) where
  unfoldable pub take_while : String → String
  take_while nil = ""
  take_while (cons c s) = let rest = take_while s in if p c then cons c rest else ""

  unfoldable pub drop_while : String → String
  drop_while nil = ""
  drop_while (cons c s) = let rest = drop_while s in if p c then rest else cons c s

abbrev pub bind_text : Option String → (String → Option String) → Option String
bind_text none f = none
bind_text (some s) f = f s

abbrev non_empty : String → Option String
non_empty s = if is_empty s then none else some s

-- a space, and then at least one character that is none
drill_word : String → Option String
drill_word nil = none
drill_word (cons c s) =
    if is_space c then non_empty (take_while (λ d. not (is_space d)) (lstrip s)) else none

-- `_DRILL_REASON.match(text)` and its group: `^\s*DRILL\s+(\S+)`
unfoldable pub drill_reason : String → Option String
unfolding drill_word drop_prefix take_while lstrip
drill_reason text = bind_text (drop_prefix "DRILL" (lstrip text)) drill_word

module _ (word_code digit_code : ℕ → Bool) where
  -- `_ALARM_ARN_NAME` at the beginning of a text: its group, and the text behind the match.
  match_arn : String → Option (String × String)
  match_arn s =
      elim (bind_text (drop_prefix "arn:aws" s) (λ a.
        bind_text
          (drop_prefix ":cloudwatch:"
            (drop_while (λ c. word_code (code c) || nat_eq (code c) b'-') a))
          (λ b.
            bind_text (drop_prefix ":" (drop_while (λ c. not (nat_eq (code c) b':')) b))
              (λ d. drop_prefix ":alarm:" (drop_while (λ c. digit_code (code c)) d))))) [
                | none ↦ none
                | some rest ↦
                    let in_name = λ (c : Char).
                      not (is_space c || nat_eq (code c) b',' || nat_eq (code c) 0x22) in
                    let name = take_while in_name rest in
                    if is_empty name then none else some (name, drop_while in_name rest)
              ]

  -- `findall`: `skip` counts the characters that belong to the match before.
  names_from : ℕ → String → List String
  unfolding match_arn drop_prefix take_while drop_while
  names_from skip nil = []
  names_from (suc skip) (cons c s) = names_from skip s
  names_from zero (cons c s) = elim (match_arn (cons c s)) [
    | none ↦ names_from zero s
    | some (name, rest) ↦ name ∷ names_from (count s - count rest) s
  ]

  -- `_ALARM_ARN_NAME.findall(text)`
  unfoldable pub alarm_names : String → List String
  unfolding names_from
  alarm_names text = names_from zero text

drill_reason_test : drill_reason "  DRILL d-17 by hand" ≡ some "d-17"
unfolding drill_reason
drill_reason_test = refl

alarm_names_test :
    alarm_names
      (λ c. false)
      (λ c. false)
      "arn:aws:cloudwatch:us-east-1::alarm:a-drill went to ALARM, arn:aws:cloudwatch:x::alarm:b, c"
    ≡ "a-drill" ∷ "b" ∷ []
unfolding alarm_names is_space
alarm_names_test = refl

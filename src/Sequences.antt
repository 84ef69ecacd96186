-- ===== src/Sequences.antt =====
-- local/postgres/lib/qpg/seqsync.py: the sequence positions that are copied from the source to the
-- target. Times are in microseconds and the rates are exact fractions, where the program computes
-- with doubles. The queries are parameters.
pub mod Forward
pub mod Covers
use qontinui_stack.Prelude.{
  ℕ, zero, suc, ◌+◌, ◌-◌, ◌*◌, ◌/◌, String, ◌≡◌, refl, Bool, true, false, not, ◌&&◌, ◌||◌, Option,
  none, some, List, [], ◌∷◌, ◌++◌, map, ltb, leb, nat_eq, if◌then◌else◌,
}
use qontinui_stack.Prelude.Assoc.{lookup, insert}
use qontinui_stack.Python.{concat, join}

pub record Sample : Type 0 where
  pub at : ℕ
  pub value : ℕ

-- An advance per five minutes: a fraction whose denominator is not 0.
pub record Rate : Type 0 where
  pub num : ℕ
  pub den : ℕ

abbrev pub five_minutes : ℕ
five_minutes = 300000000

abbrev max : ℕ → ℕ → ℕ
max a b = if ltb a b then b else a

abbrev before : Sample → Sample → Bool
before a b = ltb a.at b.at || nat_eq a.at b.at && leb a.value b.value

unfoldable pub insert_sample : Sample → List Sample → List Sample
insert_sample s [] = s ∷ []
insert_sample s (t ∷ rest) =
    let later = insert_sample s rest in if before s t then s ∷ t ∷ rest else t ∷ later

unfoldable pub ordered : List Sample → List Sample
unfolding insert_sample
ordered [] = []
ordered (s ∷ rest) = insert_sample s (ordered rest)

abbrev larger : Rate → Rate → Rate
larger a b = if ltb (a.num * b.den) (b.num * a.den) then b else a

-- The turn of the loop for two samples next to each other; closer ones count as 60 s apart.
abbrev pub step_rate : Rate → Sample → Sample → Rate
step_rate best a b =
    if leb b.at a.at || leb b.value a.value
    then best
    else larger best
        (record { num = (b.value - a.value) * five_minutes; den = max (b.at - a.at) 60000000 })

unfoldable pub rate_from : Rate → List Sample → Rate
rate_from best [] = best
rate_from best (a ∷ []) = best
rate_from best (a ∷ b ∷ rest) = rate_from (step_rate best a b) (b ∷ rest)

unfoldable pub max_advance : List Sample → Rate
unfolding ordered rate_from
max_advance samples = rate_from (record { num = 0; den = 1 }) (ordered samples)

-- max(floor, int(3 * rate + 0.999))
unfoldable pub margin_for : List Sample → ℕ → ℕ
unfolding max_advance
margin_for samples floor =
    let rate = max_advance samples in
    max floor ((3000 * rate.num + 999 * rate.den) / (1000 * rate.den))

-- A row of `read_source`: the sequence, its last value and whether the role may read it.
pub record Source : Type 0 where
  pub seq : String
  pub value : Option ℕ
  pub readable : Bool

pub data Action : Type 0 where
  set ahead unused error : Action

pub record SeqResult : Type 0 where
  pub seq : String
  pub source_value : Option ℕ
  pub target_before : Option ℕ
  pub target_after : Option ℕ
  pub margin : ℕ
  pub action : Action

abbrev flat : Option (Option ℕ) → Option ℕ
flat none = none
flat (some v) = v

-- What is decided of a sequence: it is unused, cannot be read, is not on the target, or is there,
-- with the margin and the position that is wanted.
pub data Verdict : Type 0 where
  is_unused is_unreadable : Verdict
  is_absent : (value : ℕ) → Verdict
  is_ahead : (value current margin : ℕ) → Verdict
  moves : (value : ℕ) (current : Option ℕ) (margin wanted : ℕ) → Verdict

abbrev reaches : Option ℕ → ℕ → Bool
reaches none wanted = false
reaches (some v) wanted = leb wanted v

abbrev or_zero : Option ℕ → ℕ
or_zero none = 0
or_zero (some n) = n

abbrev pub by_position : (value margin : ℕ) → Option ℕ → Verdict
by_position value margin current =
    if reaches current (value + margin)
    then is_ahead value (or_zero current) margin
    else moves value current margin (value + margin)

pub record Setup : Type 0 where
  pub floor : ℕ
  -- the stored samples of a sequence in the window, and the time now
  pub samples : String → List Sample
  pub now : ℕ
  pub dry_run : Bool
  -- whether the statements on the target, and those on the samples, fail
  pub target_fails : Bool
  pub samples_fail : Bool

abbrev pub margin_of : Setup → Source → ℕ → ℕ
unfolding margin_for
margin_of setup row value =
    margin_for (setup.samples row.seq ++ record { at = setup.now; value = value } ∷ []) setup.floor

abbrev by_target : Setup → Source → ℕ → Option (Option ℕ) → Verdict
unfolding margin_of
by_target setup row value none = is_absent value
by_target setup row value (some current) = by_position value (margin_of setup row value) current

abbrev by_value : Setup → List (String × Option ℕ) → Source → Option ℕ → Verdict
unfolding by_target
by_value setup target row none = if row.readable then is_unused else is_unreadable
by_value setup target row (some value) = by_target setup row value (lookup row.seq target)

unfoldable pub verdict_of : Setup → List (String × Option ℕ) → Source → Verdict
unfolding by_value
verdict_of setup target row = by_value setup target row row.value

unfoldable pub result_of : List (String × Option ℕ) → Source → Verdict → SeqResult
result_of target row is_unused =
    let here = flat (lookup row.seq target) in
    record {
      seq = row.seq;
      source_value = none;
      target_before = here;
      target_after = here;
      margin = 0;
      action = unused;
    }
result_of target row is_unreadable = record {
  seq = row.seq;
  source_value = none;
  target_before = none;
  target_after = none;
  margin = 0;
  action = error;
}
result_of target row (is_absent value) = record {
  seq = row.seq;
  source_value = some value;
  target_before = none;
  target_after = none;
  margin = 0;
  action = error;
}
result_of target row (is_ahead value current margin) = record {
  seq = row.seq;
  source_value = some value;
  target_before = some current;
  target_after = some current;
  margin = margin;
  action = ahead;
}
result_of target row (moves value current margin wanted) = record {
  seq = row.seq;
  source_value = some value;
  target_before = current;
  target_after = some wanted;
  margin = margin;
  action = set;
}

abbrev error_of : Source → Verdict → List String
error_of row is_unreadable =
    concat (row.seq ∷ ": last_value read NULL and the role lacks SELECT on it" ∷ []) ∷ []
error_of row (is_absent value) =
    concat (row.seq ∷ ": exists on the source but not on the target" ∷ []) ∷ []
error_of row v = []

-- setval(seq, wanted, true)
abbrev pub statement_of : Source → Verdict → List (String × ℕ)
statement_of row (moves value current margin wanted) = (row.seq, wanted) ∷ []
statement_of row v = []

-- The sample that is stored of a sequence.
abbrev sample_of : Source → Verdict → List (String × ℕ)
sample_of row (is_ahead value current margin) = (row.seq, value) ∷ []
sample_of row (moves value current margin wanted) = (row.seq, value) ∷ []
sample_of row v = []

abbrev pub gather {ℓ} : {A : Type ℓ} → (Source → List A) → List Source → List A
gather f [] = []
gather f (row ∷ rest) = f row ++ gather f rest

abbrev pub set_values : List (String × ℕ) → List (String × Option ℕ) → List (String × Option ℕ)
set_values [] target = target
set_values ((seq, wanted) ∷ rest) target = set_values rest (insert seq (some wanted) target)

-- How a run ends: with the results, with a SeqSyncError, or with the PgError of a statement.
pub data Ending : Type 0 where
  returns : List SeqResult → Ending
  sync_error : String → Ending
  database_error : Ending

pub record Run : Type 0 where
  pub ending : Ending
  pub target : List (String × Option ℕ)
  pub stored : List (String × ℕ)

module _ (setup : Setup) (source : List Source) (target : List (String × Option ℕ)) where
  unfoldable pub statements : List (String × ℕ)
  unfolding verdict_of
  statements = gather (λ row. statement_of row (verdict_of setup target row)) source

  unfoldable pub errors : List String
  unfolding verdict_of
  errors = gather (λ row. error_of row (verdict_of setup target row)) source

  abbrev new_samples : List (String × ℕ)
  unfolding verdict_of
  new_samples = gather (λ row. sample_of row (verdict_of setup target row)) source

  abbrev finished : Ending
  unfolding errors verdict_of result_of
  finished = elim errors [
    | [] ↦ returns (map (λ row. result_of target row (verdict_of setup target row)) source)
    | e ∷ rest ↦ sync_error (join "; " (e ∷ rest))
  ]

  abbrev pub fails_on_target : List (String × ℕ) → Bool
  fails_on_target [] = false
  fails_on_target (s ∷ rest) = setup.target_fails

  -- `run`: the statements are one transaction on the target, the samples another one.
  unfoldable pub run : Run
  unfolding statements finished new_samples
  run =
      if setup.dry_run
      then record { ending = finished; target = target; stored = [] }
      else if fails_on_target statements
      then record { ending = database_error; target = target; stored = [] }
      else let moved = set_values statements target in
        if setup.samples_fail
        then record { ending = database_error; target = moved; stored = [] }
        else record { ending = finished; target = moved; stored = new_samples }

-- ===== src/Sequences/Covers.antt =====
-- local/postgres/lib/qpg/seqsync.py: that a run that returns has moved every sequence far enough.
use qontinui_stack.Prelude.{
  ℕ, ◌+◌, ◌≤◌, String, ◌≡◌, ◌≢◌, refl, sym, subst, ap, ◌∙◌, false, ◌||◌, none, some, List, [], ◌∷◌,
  ◌++◌, ◌⊎◌, inl, inr, arith, elem, map, All, leb, ◌==◌, eq_refl, Bool-cases, Option-cases,
  List-cases, if◌then◌else◌,
}
use qontinui_stack.Prelude.Assoc.{lookup, insert, lookup-insert}
use qontinui_stack.Sequences.{
  Source, Setup, Verdict, is_unused, is_unreadable, is_absent, is_ahead, moves, by_target, by_value,
  verdict_of, statement_of, error_of, gather, set_values, margin_of, margin_for, statements, errors,
  finished, fails_on_target, returns, database_error, SeqResult, run,
}
use qontinui_stack.Sequences.Forward.{Target, IsReached, moved-IsReached}

-- No sequence is read twice.
abbrev pub IsDistinct : List Source → Type 0
IsDistinct [] = Unit
IsDistinct (row ∷ rest) = (elem row.seq (map (λ r. r.seq) rest) ≡ false) × IsDistinct rest

set_values-untouched :
    (ss : List (String × ℕ)) (now : Target) (seq : String)
    → elem seq (map (λ s. s.0) ss) ≡ false
    → lookup seq (set_values ss now) ≡ lookup seq now
set_values-untouched [] now seq h = refl
set_values-untouched ((key, wanted) ∷ rest) now seq h =
    set_values-untouched rest (insert key (some wanted) now) seq (ground (arith, h))
    ∙ lookup-insert now key seq (some wanted)
    ∙ ground (arith, h)

set_values-append :
    (ss ts : List (String × ℕ)) (now : Target)
    → set_values (ss ++ ts) now ≡ set_values ts (set_values ss now)
set_values-append [] ts now = refl
set_values-append (s ∷ ss) ts now = set_values-append ss ts (insert s.0 (some s.1) now)

statement-key :
    (row : Source) (v : Verdict) (seq : String)
    → (seq == row.seq) ≡ false
    → elem seq (map (λ s. s.0) (statement_of row v)) ≡ false
statement-key row is_unused seq h = refl
statement-key row is_unreadable seq h = refl
statement-key row (is_absent value) seq h = refl
statement-key row (is_ahead value current margin) seq h = refl
statement-key row (moves value current margin wanted) seq h = ground (arith, h)

elem-keys :
    (ss ts : List (String × ℕ)) (seq : String)
    → elem seq (map (λ s. s.0) (ss ++ ts))
      ≡ elem seq (map (λ s. s.0) ss) || elem seq (map (λ s. s.0) ts)
elem-keys [] ts seq = refl
elem-keys (s ∷ ss) ts seq = ground (arith, elem-keys ss ts seq)

module _ (verdict : Source → Verdict) where
  abbrev all_statements : List Source → List (String × ℕ)
  all_statements rows = gather (λ row. statement_of row (verdict row)) rows

  statements-keys :
      (rows : List Source) (seq : String)
      → elem seq (map (λ r. r.seq) rows) ≡ false
      → elem seq (map (λ s. s.0) (all_statements rows)) ≡ false
  statements-keys [] seq h = refl
  statements-keys (row ∷ rest) seq h =
      elem-keys (statement_of row (verdict row)) (all_statements rest) seq
      ∙ ground (arith, statement-key row (verdict row) seq, statements-keys rest seq, h)

  -- Of distinct sequences each one that moves is where it was wanted.
  abbrev Lands : Target → Source → Type 0
  Lands after row =
      (wanted : ℕ)
      → statement_of row (verdict row) ≡ (row.seq, wanted) ∷ []
      → lookup row.seq after ≡ some (some wanted)

  statements-land :
      (rows : List Source) (now : Target)
      → IsDistinct rows
      → All (Lands (set_values (all_statements rows) now)) rows
  statements-land [] now d = tt
  statements-land (row ∷ rest) now d =
      let own = statement_of row (verdict row) in
      let split = set_values-append own (all_statements rest) now in
      (
        λ wanted e.
            ap (lookup row.seq) split
            ∙ set_values-untouched (all_statements rest) (set_values own now) row.seq
                (statements-keys rest row.seq d.0)
            ∙ ap (λ ss. lookup row.seq (set_values ss now)) e
            ∙ lookup-insert now row.seq row.seq (some wanted)
            ∙ ap (λ b. if b then some (some wanted) else lookup row.seq now) (eq_refl row.seq),
        subst (λ t. All (Lands t) rest) (sym split) (statements-land rest (set_values own now) d.1),
      )

margin_for-floor : (setup : Setup) (row : Source) (v : ℕ) → setup.floor ≤ margin_of setup row v
unfolding margin_of margin_for
margin_for-floor setup row v = ground arith

append-empty : {A : Type 0} (xs ys : List A) → xs ++ ys ≡ [] → (xs ≡ []) × (ys ≡ [])
append-empty [] ys h = (refl, h)
append-empty (x ∷ xs) ys h = cc

module _ (setup : Setup) (target : Target) where
  -- What a verdict on a sequence with a value comes to.
  abbrev Comes : Source → ℕ → Type 0
  Comes row v =
      ((c : ℕ) × (lookup row.seq target ≡ some (some c)) × (v + setup.floor ≤ c))
      ⊎ ((w : ℕ) × (statement_of row (verdict_of setup target row) ≡ (row.seq, w) ∷ [])
          × (v + setup.floor ≤ w))

  comes_lem :
      (row : Source) (v : ℕ)
      → row.value ≡ some v
      → error_of row (verdict_of setup target row) ≡ []
      → Comes row v
  unfolding verdict_of
  comes_lem row v e clean = elim (Option-cases (lookup row.seq target)) [
    | inl q ↦ cc (rw (e, q, by_value, by_target) at clean)
    | inr (none, q) ↦ inr (v + margin, simp (e, q) refl, omega (arith, enough))
    | inr (some c, q) ↦ elim (Bool-cases (leb (v + margin) c)) [
      | inl a ↦ inl (c, q, ground (arith, a, enough))
      | inr a ↦ inr (v + margin, simp (e, q, a) refl, omega (arith, enough))
    ]
  ]
    where
      margin : ℕ
      margin = margin_of setup row v

      enough : setup.floor ≤ margin_of setup row v
      enough = margin_for-floor setup row v

  clean_rows :
      (rows : List Source)
      → gather (λ row. error_of row (verdict_of setup target row)) rows ≡ []
      → All (λ row. error_of row (verdict_of setup target row) ≡ []) rows
  clean_rows [] h = tt
  clean_rows (row ∷ rest) h =
      let (own, others) = append-empty (error_of row (verdict_of setup target row)) _ h in
      (own, clean_rows rest others)

  -- The position of a sequence covers its value on the source and the floor.
  abbrev pub Covers : Target → Source → Type 0
  Covers after row =
      (v : ℕ)
      → row.value ≡ some v
      → (v' : ℕ) × (lookup row.seq after ≡ some (some v')) × (v + setup.floor ≤ v')

  Covers-All :
      (after : Target) (rows : List Source)
      → IsReached target after
      → All (Lands (verdict_of setup target) after) rows
      → All (λ row. error_of row (verdict_of setup target row) ≡ []) rows
      → All (Covers after) rows
  Covers-All after [] h l c = tt
  Covers-All after (row ∷ rest) h l c = (
    λ v e. elim (comes_lem row v e c.0) [
      | inl (here, at, le) ↦
          let (v', there, more) = h row.seq here at in (v', there, omega (arith, le, more))
      | inr (w, states, le) ↦ (w, l.0 w states, le)
    ],
    Covers-All after rest h l.1 c.1,
  )

  never_error : (results : List SeqResult) → database_error ≢ returns results
  never_error results e = cc

  finished-returns :
      (source : List Source) (results : List SeqResult)
      → finished setup source target ≡ returns results
      → errors setup source target ≡ []
  unfolding finished
  finished-returns source results e = elim (List-cases (errors setup source target)) [
    | inl q ↦ q
    | inr (x, rest, q) ↦ cc (rw (q, finished) at e)
  ]

  run-returns :
      (source : List Source) (results : List SeqResult)
      → setup.dry_run ≡ false
      → (run setup source target).ending ≡ returns results
      → (errors setup source target ≡ [])
        × ((run setup source target).target ≡ set_values (statements setup source target) target)
  unfolding run
  run-returns source results wet e =
      elim (Bool-cases (fails_on_target setup source target (statements setup source target))) [
        | inl f ↦ absurd (never_error results (rw (wet, f, run) at e))
        | inr f ↦ elim (Bool-cases setup.samples_fail) [
          | inl s ↦ absurd (never_error results (rw (wet, f, s, run) at e))
          | inr s ↦ (
            finished-returns source results (rw (wet, f, s, run) at e),
            simp (wet, f, s, run) refl,
          )
        ]
      ]

  -- A run that is not a dry one and returns leaves every sequence that has a value on the source at
  -- that value and the floor at least.
  pub run-Covers :
      (source : List Source) (results : List SeqResult)
      → IsDistinct source
      → setup.dry_run ≡ false
      → (run setup source target).ending ≡ returns results
      → All (Covers (run setup source target).target) source
  unfolding statements errors
  run-Covers source results distinct wet e =
      let (clean, moved) = run-returns source results wet e in
      subst (λ t. All (Covers t) source) (sym moved)
        (Covers-All _ source (moved-IsReached setup target source)
          (statements-land (verdict_of setup target) source target distinct)
          (clean_rows source clean))

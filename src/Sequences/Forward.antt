-- ===== src/Sequences/Forward.antt =====
-- local/postgres/lib/qpg/seqsync.py: where a run leaves the sequences of the target.
use qontinui_stack.Prelude.{
  ℕ, ◌+◌, ◌≤◌, String, ◌≡◌, refl, sym, subst, ap, ◌∙◌, false, Option, none, some, List, [], ◌∷◌,
  inl, inr, arith, All, All-append, leb, ◌==◌, eq_iff, Bool-cases, if◌then◌else◌,
}
use qontinui_stack.Prelude.Assoc.{lookup, insert, lookup-insert}
use qontinui_stack.Sequences.{
  Source, Setup, by_position, by_target, by_value, verdict_of, statement_of, gather, set_values,
  margin_of, statements, fails_on_target, run,
}

abbrev pub Target : Type 0
Target = List (String × Option ℕ)

-- Every position of the first is reached in the second.
abbrev pub IsReached : Target → Target → Type 0
IsReached before after =
    (seq : String) (v : ℕ)
    → lookup seq before ≡ some (some v)
    → (v' : ℕ) × (lookup seq after ≡ some (some v')) × (v ≤ v')

-- A statement that does not lower the position of its sequence.
abbrev Raises : Target → String × ℕ → Type 0
Raises target s = (v : ℕ) → lookup s.0 target ≡ some (some v) → v ≤ s.1

set_values-IsReached :
    (target now : Target) (ss : List (String × ℕ))
    → All (Raises target) ss
    → IsReached target now
    → IsReached target (set_values ss now)
set_values-IsReached target now [] a h = h
set_values-IsReached target now ((seq, wanted) ∷ rest) a h =
    set_values-IsReached target (insert seq (some wanted) now) rest a.1 raised
  where
    raised : IsReached target (insert seq (some wanted) now)
    raised key v e = elim (Bool-cases (key == seq)) [
      | inl q ↦
          let same = (eq_iff key seq).0 q in
          (
            wanted,
            lookup-insert now seq key (some wanted)
                ∙ ap (λ b. if b then some (some wanted) else lookup key now) q,
            a.0 v (subst (λ k. lookup k target ≡ some (some v)) same e),
          )
      | inr q ↦
          let (v', there, le) = h key v e in
          (
            v',
            lookup-insert now seq key (some wanted)
                ∙ ap (λ b. if b then some (some wanted) else lookup key now) q
                ∙ there,
            le,
          )
    ]

module _ (setup : Setup) (target : Target) where
  statement-Raises :
      (row : Source) → All (Raises target) (statement_of row (verdict_of setup target row))
  unfolding verdict_of
  statement-Raises row = by_value-Raises row.value
    where
      below : (c v w : ℕ) → leb w c ≡ false → some (some c) ≡ some (some v) → v ≤ w
      below c v w q e = ground (arith, q, e)

      position-Raises :
          (value margin : ℕ) (current : Option ℕ)
          → lookup row.seq target ≡ some current
          → All (Raises target) (statement_of row (by_position value margin current))
      position-Raises value margin none e = (λ v f. cc, tt)
      position-Raises value margin (some c) e = elim (Bool-cases (leb (value + margin) c)) [
        | inl q ↦ simp q tt
        | inr q ↦ simp q (λ v f. below c v (value + margin) q (sym e ∙ f), tt)
      ]

      target-Raises :
          (value : ℕ) (o : Option (Option ℕ))
          → lookup row.seq target ≡ o
          → All (Raises target) (statement_of row (by_target setup row value o))
      target-Raises value none e = tt
      target-Raises value (some current) e =
          position-Raises value (margin_of setup row value) current e

      by_value-Raises :
          (o : Option ℕ) → All (Raises target) (statement_of row (by_value setup target row o))
      by_value-Raises none = elim (Bool-cases row.readable) [
        | inl q ↦ simp q tt
        | inr q ↦ simp q tt
      ]
      by_value-Raises (some value) = target-Raises value (lookup row.seq target) refl

  statements-Raises :
      (rows : List Source)
      → All (Raises target) (gather (λ row. statement_of row (verdict_of setup target row)) rows)
  statements-Raises [] = tt
  statements-Raises (row ∷ rest) =
      All-append (Raises target) _ _ (statement-Raises row) (statements-Raises rest)

  pub moved-IsReached :
      (source : List Source) → IsReached target (set_values (statements setup source target) target)
  unfolding statements
  moved-IsReached source =
      set_values-IsReached target target _ (statements-Raises source)
        (λ seq v e. (v, e, omega arith))

  -- Whatever the source and the samples say and whichever statements fail, no sequence of the
  -- target goes backwards.
  pub run-IsReached : (source : List Source) → IsReached target (run setup source target).target
  unfolding run statements
  run-IsReached source = elim (Bool-cases setup.dry_run) [
    | inl d ↦ simp (d, run) same
    | inr d ↦
        elim (Bool-cases (fails_on_target setup source target (statements setup source target))) [
          | inl f ↦ simp (d, f, run) same
          | inr f ↦ elim (Bool-cases setup.samples_fail) [
            | inl s ↦ simp (d, f, s, run) moved
            | inr s ↦ simp (d, f, s, run) moved
          ]
        ]
  ]
    where
      same : IsReached target target
      same seq v e = (v, e, omega arith)

      moved : IsReached target (set_values (statements setup source target) target)
      moved = moved-IsReached source

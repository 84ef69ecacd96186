-- ===== src/Follower/Halting/Quiet.antt =====
-- What a halt and a refused resolution leave, in local/postgres/lib/qpg/follower.py.
use qontinui_stack.Follower.Shape.{sub_oid}
use qontinui_stack.Prelude.{
  String, ◌≡◌, refl, ap, Bool, true, false, ◌||◌, ◌&&◌, Option, none, some, ◌⊎◌, inl, inr, elem,
  Bool-cases, Option-cases,
}
use qontinui_stack.Follower.Types.{
  config_error, Detail, StateRow, idle, in_progress, halted, HaltDetail, Reason, Result, ok, Other,
  no_other, empty_other, filled_other, stepless,
}
use qontinui_stack.Follower.Effects.{
  Act, event, wrote_state, disabled, dropped_triggers, World, Env, execute, set_state, log_event,
  ◌>>=◌,
}
use qontinui_stack.Follower.Machine.{set_subscription}
use qontinui_stack.Follower.Halting.{
  disable_if_enabled, set_halted, halt_with, resolvable, check, same_case, resolve_in, resolve_row,
  resolve, resolve_other,
}

abbrev pub was_on : Option Bool → Bool
was_on none = false
was_on (some b) = b

-- The detail that a halt stores.
abbrev pub stored : HaltDetail → Option Bool → HaltDetail
stored detail s = record detail { disabled_by_halt = was_on s || detail.disabled_by_halt }

-- What a halt promises of its result, by the subscription before it.
abbrev pub IsQuieted : Reason → HaltDetail → Option Bool → Result (Unit {0}) × World → Type 0
IsQuieted reason detail s r =
    (r.0 ≡ ok tt)
    × (r.1.state ≡ halted reason (stored detail s))
    × (r.1.triggers ≡ false)
    × (was_on r.1.subscription ≡ false)

off_after : (s : Option Bool) → was_on (set_subscription s false) ≡ false
off_after none = refl
off_after (some b) = refl

module _ (env : Env) (f : (act : Act) (v : World) → env.fault act v ≡ none) where
  IsQuieted-from :
      (reason : Reason) (detail : HaltDetail) (s : Option Bool) (v : World)
      → v.triggers ≡ false
      → v.subscription ≡ s
      → IsQuieted reason detail s (set_halted env reason detail (disable_if_enabled env s v))
  unfolding execute set_state log_event
  IsQuieted-from reason detail (some true) v t e =
      simp (f disabled v, f wrote_state _, f (event "halted") _)
        (refl, refl, t, off_after v.subscription)
  IsQuieted-from reason detail (some false) v t e =
      simp (f wrote_state v, f (event "halted") _) (refl, refl, t, ap was_on e)
  IsQuieted-from reason detail none v t e =
      simp (f wrote_state v, f (event "halted") _) (refl, refl, t, ap was_on e)

  -- Where no statement fails, a halt returns, with the state halted for the reason, the step in
  -- progress and the case of its detail kept and the detail telling whether a halt disabled the
  -- subscription, with the triggers gone and the subscription not enabled.
  pub halt_with-quiets :
      (reason : Reason) (detail : HaltDetail) (w : World)
      → IsQuieted reason detail w.subscription (halt_with env reason detail w)
  unfolding halt_with execute
  halt_with-quiets reason detail w =
      simp (f dropped_triggers w) (IsQuieted-from reason detail w.subscription _ refl refl)

-- A resolution that is not of the current halt's own case and targets, or comes while no halted step
-- is there, changes nothing: where the world changes, the follower is halted in a step, and the case
-- can be resolved and is the halt's, and the target is one of the halt's.
pub resolve-guarded :
    (env : Env) (kase target : String) (w : World)
    → ((reason : Reason) × (detail : HaltDetail) × (prior : Detail) × (w.state
          ≡ halted reason detail)
        × (detail.in_progress ≡ some prior)
        × (elem kase resolvable && (same_case detail.kase kase && elem target detail.targets)
            ≡ true))
      ⊎ ((resolve env kase target w).1 ≡ w)
unfolding resolve sub_oid
resolve-guarded env kase target w = by_check (elem kase resolvable) refl
  where
    Guarded : Result (Unit {0}) × World → Type 0
    Guarded r =
        ((reason : Reason) × (detail : HaltDetail) × (prior : Detail) × (w.state
            ≡ halted reason detail)
          × (detail.in_progress ≡ some prior)
          × (elem kase resolvable && (same_case detail.kase kase && elem target detail.targets)
              ≡ true))
        ⊎ (r.1 ≡ w)

    by_other :
        (detail : HaltDetail) (other : Other) → (resolve_other kase target detail other w).1 ≡ w
    by_other detail no_other = refl
    by_other detail empty_other = refl
    by_other detail filled_other = elim (Bool-cases (same_case detail.kase kase)) [
      | inr b ↦ simp b refl
      | inl b ↦ elim (Bool-cases (elem target detail.targets)) [
        | inr c ↦ simp (b, c) refl
        | inl c ↦ elim (Option-cases w.subscription) [
          | inl s ↦ simp (b, c, s, sub_oid) refl
          | inr (s, e) ↦ simp (b, c, e, sub_oid) refl
        ]
      ]
    ]

    by_kept :
        (reason : Reason) (detail : HaltDetail) (kept : Option Detail)
        → elem kase resolvable ≡ true
        → w.state ≡ halted reason detail
        → detail.in_progress ≡ kept
        → Guarded (resolve_in env kase target detail kept w)
    by_kept reason detail none a e k = inr (by_other detail detail.other)
    by_kept reason detail (some prior) a e k = elim (Bool-cases (same_case detail.kase kase)) [
      | inr b ↦ inr (simp b refl)
      | inl b ↦ elim (Bool-cases (elem target detail.targets)) [
        | inr c ↦ inr (simp (b, c) refl)
        | inl c ↦ inl (reason, detail, prior, e, k, rw (a, b, c) refl)
      ]
    ]

    by_row :
        elem kase resolvable ≡ true
        → (row : StateRow) → w.state ≡ row
        → Guarded (resolve_row env kase target row w)
    by_row a (halted reason detail) e = by_kept reason detail detail.in_progress a e refl
    by_row a (idle at) e = inr refl
    by_row a (in_progress d) e = inr refl
    by_row a stepless e = inr refl

    by_check :
        (b : Bool)
        → elem kase resolvable ≡ b
        → Guarded ((check b config_error >>= λ u. resolve_row env kase target w.state) w)
    by_check false a = inr refl
    by_check true a = by_row a w.state refl

-- ===== src/Watchdog/Notices.antt =====
-- Which checks of local/postgres/lib/qpg/watchdog.py are told.
use qontinui_stack.Prelude.{
  ℕ, ◌+◌, ◌*◌, ◌<◌, String, ◌≡◌, refl, Bool, true, false, Option, none, some, List, [], ◌∷◌, ◌⊎◌,
  inl, inr, All, ltb→lt, ◌==◌, if◌then◌else◌, arith,
}
use qontinui_stack.Prelude.Assoc.{lookup}
use qontinui_stack.Watchdog.{
  Check, Reading, is_bad, bad, Sent, key_of, Notice, notice_of, suppressed, notify_all, run,
}

abbrev pub In : Notice → List Notice → Type 0
In n [] = ⊥
In n (m ∷ rest) = (m ≡ n) ⊎ In n rest

-- A notice of the check was sent now, or one with the same text less than `renotify` ago.
abbrev pub IsTold :
    (renotify now : ℕ) (storage : String) → List (String × Sent) → List Notice → Check → Type 0
IsTold renotify now storage sent notices c =
    In (notice_of storage c) notices
    ⊎ ((prior : Sent) × (lookup (key_of c) sent ≡ some prior)
        × (prior.message == c.message ≡ true)
        × (now < renotify + prior.at))

module _ (renotify now : ℕ) (storage : String) (sent : List (String × Sent)) where
  suppressed-prior :
      (c : Check) (prior : Option Sent)
      → lookup (key_of c) sent ≡ prior
      → suppressed renotify now c prior ≡ true
      → (p : Sent) × (lookup (key_of c) sent ≡ some p)
        × (p.message == c.message ≡ true)
        × (now < renotify + p.at)
  unfolding suppressed
  suppressed-prior c none e h = ground arith
  suppressed-prior c (some p) e h = (p, e, ground arith, ltb→lt _ _ (ground arith))

  weaken :
      (n : Notice) (notices : List Notice) (cs : List Check)
      → All (IsTold renotify now storage sent notices) cs
      → All (IsTold renotify now storage sent (n ∷ notices)) cs
  weaken n notices [] h = tt
  weaken n notices (c ∷ cs) (inl i, rest) = (inl (inr i), weaken n notices cs rest)
  weaken n notices (c ∷ cs) (inr p, rest) = (inr p, weaken n notices cs rest)

  IsTold-first :
      (b : Bool) (c : Check) (rest : List Check) (notices : List Notice)
      → suppressed renotify now c (lookup (key_of c) sent) ≡ b
      → All (IsTold renotify now storage sent notices) rest
      → All
          (IsTold renotify now storage sent (if b then notices else notice_of storage c ∷ notices))
          (c ∷ rest)
  IsTold-first true c rest notices e h = (inr (suppressed-prior c _ refl e), h)
  IsTold-first false c rest notices e h = (inl (inl refl), weaken _ notices rest h)

  notify_all-IsTold :
      (cs : List Check) (fresh : List (String × Sent))
      → All (IsTold renotify now storage sent (notify_all renotify now storage sent cs fresh).1) cs
  unfolding notify_all
  notify_all-IsTold [] fresh = tt
  notify_all-IsTold (c ∷ rest) fresh = IsTold-first _ c rest _ refl (notify_all-IsTold rest _)

-- A list with its bad checks told, or not bad.
told_of_bad :
    (T : Check → Type 0) (cs : List Check) → All T (bad cs) → All (λ c. (is_bad c ≡ false) ⊎ T c) cs
unfolding bad
told_of_bad T [] h = tt
told_of_bad T (c ∷ rest) h = split (is_bad c) refl (told_of_bad T rest) h
  where
    split :
        (b : Bool)
        → is_bad c ≡ b
        → (All T (bad rest) → All (λ d. (is_bad d ≡ false) ⊎ T d) rest)
        → All T (if b then c ∷ bad rest else bad rest)
        → ((is_bad c ≡ false) ⊎ T c) × All (λ d. (is_bad d ≡ false) ⊎ T d) rest
    split true e go k = (inr k.0, go k.1)
    split false e go k = (inl e, go k)

-- After a run every check is OK or INFO, or it was told: a notice with its name, status and message
-- was sent in this run, or the saved state held a notice of the same check and status with the same
-- message, sent less than the renotification time ago.
pub run-tells :
    (renotify_minutes now : ℕ) (storage : String) (sent : List (String × Sent))
    (readings : List (String × Reading))
    → All
        (λ c.
          (is_bad c ≡ false)
          ⊎ IsTold
              (renotify_minutes * 60)
              now
              storage
              sent
              (run renotify_minutes now storage sent readings).2
              c)
        (run renotify_minutes now storage sent readings).0
unfolding run
run-tells renotify_minutes now storage sent readings =
    told_of_bad _ _ (notify_all-IsTold (renotify_minutes * 60) now storage sent _ [])

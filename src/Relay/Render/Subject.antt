-- ===== src/Relay/Render/Subject.antt =====
-- The email subject of a page (aws/lambdas/operator_pager_relay/handler.py).
use Prim.Native.Char.{Char, code}
use Prim.Native.String.{[] as nil, ◌∷◌ as cons, count, ◌++◌ as append}
use text.Mathlib.TextLemmas.{length-cons, cons-append, nil-append}
use qontinui_stack.Prelude.{
  ℕ, zero, suc, ◌-◌, ◌≤◌, String, ◌≡◌, refl, Bool, true, false, ◌⊎◌, ◌&&◌, nat_eq, arith, leb,
  Bool-cases, inl, inr, leb→le, if◌then◌else◌,
}
use qontinui_stack.Python.{strip, rstrip, lstrip, take, is_empty, is_space}
use qontinui_stack.Relay.Render.{
  clip, subject_prefix, ascii_replace, blank_controls, dot, dot_ellipsis, sns_subject,
}
use qontinui_stack.Relay.Render.Bounds.{count-clip-le}

module _ {κ} (P : Char → Type κ) where
  abbrev pub AllChars : String → Type κ
  AllChars nil = Unit
  AllChars (cons c s) = P c × AllChars s

  AllChars-append : (s t : String) → AllChars s → AllChars t → AllChars (append s t)
  AllChars-append nil t h k = rw nil-append k
  AllChars-append (cons c s) t h k = rw cons-append (h.0, AllChars-append s t h.1 k)

  AllChars-lstrip : (s : String) → AllChars s → AllChars (lstrip s)
  unfolding lstrip
  AllChars-lstrip nil h = tt
  AllChars-lstrip (cons c s) h = elim (Bool-cases (is_space c)) [
    | inl e ↦ rw e (AllChars-lstrip s h.1)
    | inr e ↦ rw e h
  ]

  AllChars-take : (n : ℕ) (s : String) → AllChars s → AllChars (take n s)
  unfolding take
  AllChars-take zero s h = tt
  AllChars-take (suc n) nil h = tt
  AllChars-take (suc n) (cons c s) h = (h.0, AllChars-take n s h.1)

  AllChars-rstrip : (s : String) → AllChars s → AllChars (rstrip s)
  unfolding rstrip
  AllChars-rstrip nil h = tt
  AllChars-rstrip (cons c s) h = elim (Bool-cases (is_empty (rstrip s) && is_space c)) [
    | inl e ↦ rw e tt
    | inr e ↦ rw e (h.0, AllChars-rstrip s h.1)
  ]

  AllChars-clip : (s : String) (limit : ℕ) → AllChars s → AllChars "…" → AllChars (clip s limit)
  unfolding clip strip
  AllChars-clip s limit h k =
      let inner = AllChars-rstrip (lstrip s) (AllChars-lstrip s h) in
      elim (Bool-cases (leb (count (strip s)) limit)) [
        | inl e ↦ rw e inner
        | inr e ↦ rw e (
            AllChars-append (rstrip (take (limit - 1) (strip s))) "…"
              (AllChars-rstrip _ (AllChars-take (limit - 1) (strip s) inner)) k)
      ]

abbrev pub IsPrintable : Char → Type 0
IsPrintable c = (32 ≤ code c) × (code c ≤ 126)

-- a printable character, or the ellipsis of a clipped text
abbrev IsPrintableOrEllipsis : Char → Type 0
IsPrintableOrEllipsis c = IsPrintable c ⊎ (code c ≡ 0x2026)

abbrev IsAscii : Char → Type 0
IsAscii c = code c ≤ 127

ascii_replace-IsAscii : (s : String) → AllChars IsAscii (ascii_replace s)
unfolding ascii_replace
ascii_replace-IsAscii nil = tt
ascii_replace-IsAscii (cons c s) = elim (Bool-cases (leb (code c) 127)) [
  | inl e ↦ rw e (leb→le (code c) 127 e, ascii_replace-IsAscii s)
  | inr e ↦ rw e (omega arith, ascii_replace-IsAscii s)
]

blank_controls-printable :
    (inside : Bool) (s : String)
    → AllChars IsAscii s
    → AllChars IsPrintableOrEllipsis (blank_controls inside s)
unfolding blank_controls
blank_controls-printable inside nil h = tt
blank_controls-printable inside (cons c s) h =
    ground (arith, blank_controls-printable true s h.1, blank_controls-printable false s h.1)

no_ellipsis :
    (n : ℕ) → nat_eq n 0x2026 ≡ false → (32 ≤ n) × (n ≤ 126) ⊎ (n ≡ 0x2026) → (32 ≤ n) × (n ≤ 126)
no_ellipsis n e h = ground arith

dot_ellipsis-IsPrintable :
    (s : String) → AllChars IsPrintableOrEllipsis s → AllChars IsPrintable (dot_ellipsis s)
unfolding dot_ellipsis
dot_ellipsis-IsPrintable nil h = tt
dot_ellipsis-IsPrintable (cons c s) h = elim (Bool-cases (nat_eq (code c) 0x2026)) [
  | inl e ↦ rw e (omega arith, dot_ellipsis-IsPrintable s h.1)
  | inr e ↦ rw e (no_ellipsis (code c) e h.0, dot_ellipsis-IsPrintable s h.1)
]

count-dot_ellipsis : (s : String) → count (dot_ellipsis s) ≡ count s
unfolding dot_ellipsis
count-dot_ellipsis nil = refl
count-dot_ellipsis (cons c s) = ground (
  arith,
  count-dot_ellipsis s,
  length-cons c s,
  length-cons (if nat_eq (code c) 0x2026 then dot else c) (dot_ellipsis s),
)

-- The subject of every title has at most 100 characters, all of them printable ASCII, so no line
-- break of a title reaches a header of the email.
pub sns_subject-IsPrintable :
    (title : String) → (count (sns_subject title) ≤ 100) × AllChars IsPrintable (sns_subject title)
unfolding sns_subject
sns_subject-IsPrintable title =
    let clean = blank_controls false (ascii_replace title) in
    let clipped = clip (append subject_prefix clean) 100 in
    (
      omega (
        arith,
        count-dot_ellipsis clipped,
        count-clip-le (append subject_prefix clean) 100 (omega arith),
      ),
      dot_ellipsis-IsPrintable clipped (
          AllChars-clip IsPrintableOrEllipsis (append subject_prefix clean) 100
            (AllChars-append IsPrintableOrEllipsis subject_prefix clean (omega arith)
              (blank_controls-printable false (ascii_replace title) (ascii_replace-IsAscii title)))
            (omega arith)),
    )

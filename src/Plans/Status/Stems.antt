-- ===== src/Plans/Status/Stems.antt =====
-- scripts/resolve-plan-deps.py: the stems that `parse_depends_on` gives.
use Prim.Native.Char.{Char, code}
use Prim.Native.String.{[] as nil, ◌∷◌ as cons, count}
use qontinui_stack.Prelude.{
  ℕ, zero, suc, ◌-◌, String, ◌≡◌, refl, subst, Bool, true, false, not, ◌&&◌, ◌||◌, Option, none,
  some, List, [], ◌∷◌, ◌++◌, ◌⊎◌, inl, inr, arith, elem, All, All-append, nat_eq, eq_iff,
  Bool-cases, Option-cases, if◌then◌else◌,
}
use qontinui_stack.Python.Sets.{add, elem-last}
use qontinui_stack.Python.Find.{after_each, line_of}
use qontinui_stack.Plans.Status.{
  Slot, stem_slots, slug_code, fits, prefixed, or_else, at_boundary, stop, slug, stem_at,
  match_stem, find_stems, add_all, stems_of, parse_depends_on,
}

-- Segments of lower-case letters and digits, none empty, with dashes between them; `started` says
-- whether the segment has a character yet.
abbrev pub slug_shape : Bool → String → Bool
slug_shape started nil = started
slug_shape started (cons c s) =
    slug_code (code c) && slug_shape true s
    || not (slug_code (code c)) && started && nat_eq (code c) b'-' && slug_shape false s

-- The places of a date, and a slug after them.
abbrev pub stem_shape : (ℕ → Bool) → List Slot → String → Bool
stem_shape digit_code [] s = slug_shape false s
stem_shape digit_code (slot ∷ slots) nil = false
stem_shape digit_code (slot ∷ slots) (cons c s) =
    fits digit_code slot (code c) && stem_shape digit_code slots s

-- No text stands twice.
abbrev pub IsUnique : List String → Type 0
IsUnique [] = Unit
IsUnique (x ∷ xs) = (elem x xs ≡ false) × IsUnique xs

IsUnique-last :
    (xs : List String) (x : String) → elem x xs ≡ false → IsUnique xs → IsUnique (xs ++ x ∷ [])
IsUnique-last [] x out h = (refl, tt)
IsUnique-last (y ∷ xs) x out h = (
  ground (arith, elem-last y x xs, eq_iff y x, eq_iff x y),
  IsUnique-last xs x (ground (arith, out)) h.1,
)

IsUnique-add : (x : String) (xs : List String) → IsUnique xs → IsUnique (add x xs)
IsUnique-add x xs h = elim (Bool-cases (elem x xs)) [
  | inl e ↦ simp e h
  | inr e ↦ simp e (IsUnique-last xs x e h)
]

module _ (word_code digit_code : ℕ → Bool) where
  abbrev pub IsStem : String → Type 0
  IsStem s = stem_shape digit_code stem_slots s ≡ true

  if-some :
      (b : Bool) (o : Option String) (m : String)
      → (if b then o else none) ≡ some m
      → (b ≡ true) × (o ≡ some m)
  if-some true o m e = (refl, e)
  if-some false o m e = cc

  some-inj : (a m : String) → some a ≡ some m → a ≡ m
  some-inj a m e = ground (arith, e)

  prefixed-some :
      (c : Char) (o : Option String) (m : String)
      → prefixed c o ≡ some m
      → (rest : String) × (o ≡ some rest) × (m ≡ cons c rest)
  prefixed-some c none m e = cc
  prefixed-some c (some rest) m e = (rest, refl, ground (arith, e))

  All-add : (x : String) (xs : List String) → IsStem x → All IsStem xs → All IsStem (add x xs)
  All-add x xs k h = elim (Bool-cases (elem x xs)) [
    | inl e ↦ simp e h
    | inr e ↦ simp e (All-append IsStem xs (x ∷ []) h (k, tt))
  ]

  or_else-cases :
      (a b : Option String) (m : String) → or_else a b ≡ some m → (a ≡ some m) ⊎ (b ≡ some m)
  or_else-cases none b m e = inr e
  or_else-cases (some s) b m e = inl e

  abbrev begun : Option Char → Bool
  begun none = false
  begun (some c) = true

  stop-shape :
      (prev : Option Char) (s m : String)
      → stop word_code digit_code prev s ≡ some m
      → slug_shape (begun prev) m ≡ true
  stop-shape none s m e = cc
  stop-shape (some c) s m e =
      let (_, q) = if-some (at_boundary word_code digit_code (some c) s) (some "") m e in
      subst (λ t. slug_shape true t ≡ true) (some-inj "" m q) refl

  -- What a match does where the segment goes on or a new one starts.
  abbrev continued : Char → Char → String → Option String
  continued p c s =
      if slug_code (code c)
      then prefixed c (slug word_code digit_code (some c) s)
      else (if nat_eq (code c) b'-' then prefixed c (slug word_code digit_code none s) else none)

  slug-shape :
      (prev : Option Char) (s m : String)
      → slug word_code digit_code prev s ≡ some m
      → slug_shape (begun prev) m ≡ true
  unfolding slug
  slug-shape prev nil m e = stop-shape prev nil m e
  slug-shape none (cons c s) m e = elim (Bool-cases (slug_code (code c))) [
    | inl k ↦
        let (rest, ran, q) = prefixed-some c _ m (rw (k, slug) at e) in
        rw q (ground (arith, k, slug-shape (some c) s rest ran))
    | inr k ↦ cc (rw (k, slug) at e)
  ]
  slug-shape (some p) (cons c s) m e =
      elim (or_else-cases (continued p c s) (stop word_code digit_code (some p) (cons c s)) m e) [
        | inr stopped ↦ stop-shape (some p) (cons c s) m stopped
        | inl more ↦ elim (Bool-cases (slug_code (code c))) [
          | inl k ↦
              let (rest, ran, q) = prefixed-some c _ m (rw k at more) in
              rw q (ground (arith, k, slug-shape (some c) s rest ran))
          | inr k ↦ elim (Bool-cases (nat_eq (code c) b'-')) [
            | inl d ↦
                let (rest, ran, q) = prefixed-some c _ m (rw (k, d) at more) in
                rw q (ground (arith, k, d, slug-shape none s rest ran))
            | inr d ↦ cc (rw (k, d) at more)
          ]
        ]
      ]

  stem_at-shape :
      (slots : List Slot) (s m : String)
      → stem_at word_code digit_code slots s ≡ some m
      → stem_shape digit_code slots m ≡ true
  unfolding stem_at
  stem_at-shape [] s m e = slug-shape none s m e
  stem_at-shape (slot ∷ slots) nil m e = cc
  stem_at-shape (slot ∷ slots) (cons c s) m e = elim (Bool-cases (fits digit_code slot (code c))) [
    | inl k ↦
        let (rest, ran, q) = prefixed-some c _ m (rw (k, stem_at) at e) in
        rw q (ground (arith, k, stem_at-shape slots s rest ran))
    | inr k ↦ cc (rw (k, stem_at) at e)
  ]

  match_stem-IsStem :
      (prev : Option Char) (s m : String)
      → match_stem word_code digit_code prev s ≡ some m
      → IsStem m
  unfolding match_stem
  match_stem-IsStem prev s m e =
      let (_, found) =
        if-some (at_boundary word_code digit_code prev s)
          (stem_at word_code digit_code stem_slots s) m e in
      stem_at-shape stem_slots s m found

  find_stems-IsStem :
      (prev : Option Char) (skip : ℕ) (s : String)
      → All IsStem (find_stems word_code digit_code prev skip s)
  unfolding find_stems
  find_stems-IsStem prev skip nil = tt
  find_stems-IsStem prev (suc skip) (cons c s) = find_stems-IsStem (some c) skip s
  find_stems-IsStem prev zero (cons c s) =
      elim (Option-cases (match_stem word_code digit_code prev (cons c s))) [
        | inl e ↦ simp (e, find_stems) (find_stems-IsStem (some c) zero s)
        | inr (m, e) ↦
            simp (e, find_stems)
              (match_stem-IsStem prev (cons c s) m e, find_stems-IsStem (some c) (count m - 1) s)
      ]

  add_all-keeps :
      (stems more : List String)
      → All IsStem stems
      → IsUnique stems
      → All IsStem more
      → All IsStem (add_all word_code digit_code stems more)
        × IsUnique (add_all word_code digit_code stems more)
  add_all-keeps stems [] h u a = (h, u)
  add_all-keeps stems (stem ∷ more) h u a =
      add_all-keeps (add stem stems) more (All-add stem stems a.0 h) (IsUnique-add stem stems u) a.1

  stems_of-keeps :
      (stems tails : List String)
      → All IsStem stems
      → IsUnique stems
      → let all = stems_of word_code digit_code stems tails in All IsStem all × IsUnique all
  unfolding stems_of
  stems_of-keeps stems [] h u = (h, u)
  stems_of-keeps stems (tail ∷ tails) h u =
      let (h', u') =
        add_all-keeps stems (find_stems word_code digit_code none zero (line_of tail)) h u
          (find_stems-IsStem none zero (line_of tail)) in
      stems_of-keeps
        (add_all word_code digit_code stems
          (find_stems word_code digit_code none zero (line_of tail)))
        tails h' u'

  -- Whatever the block says, each dependency is a date followed by a slug, and none is named twice.
  pub parse_depends_on-IsStems :
      (block : String)
      → All IsStem (parse_depends_on word_code digit_code block)
        × IsUnique (parse_depends_on word_code digit_code block)
  unfolding parse_depends_on
  parse_depends_on-IsStems block = stems_of-keeps [] (after_each "Depends-On:" 0 block) tt tt

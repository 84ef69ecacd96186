-- ===== src/Secdiff/Agreement.antt =====
-- When local/postgres/lib/qpg/secdiff.py reports an empty difference.
use qontinui_stack.Prelude.{
  String, ◌≡◌, refl, sym, ◌∙◌, ap, ◌↔◌, Bool, true, false, ◌&&◌, List, [], ◌∷◌, ◌++◌, map, is_nil,
  all, All, elem, arith,
}
use qontinui_stack.Python.Json.{Json}
use qontinui_stack.Python.Lists.{insert_text, sorted}
use qontinui_stack.Partitions.{same_set, set_minus}
use qontinui_stack.Partitions.Parity.{same_set-members}
use qontinui_stack.Secdiff.{
  Side, section_names, diff_section, diff_sections, diff, owner_premise, run,
}

is_nil-append {ℓ} : {A : Type ℓ} (xs ys : List A) → is_nil (xs ++ ys) ≡ is_nil xs && is_nil ys
is_nil-append [] ys = refl
is_nil-append (x ∷ xs) ys = refl

is_nil-map {ℓ κ} :
    {A : Type ℓ} {B : Type κ} (f : A → B) (xs : List A) → is_nil (map f xs) ≡ is_nil xs
is_nil-map f [] = refl
is_nil-map f (x ∷ xs) = refl

is_nil_eq {ℓ} : {A : Type ℓ} (xs : List A) → is_nil xs ≡ true → xs ≡ []
is_nil_eq [] h = refl
is_nil_eq (x ∷ xs) h = cc

is_nil-insert_text : (x : String) (xs : List String) → is_nil (insert_text x xs) ≡ false
unfolding insert_text
is_nil-insert_text x [] = refl
is_nil-insert_text x (y ∷ xs) = ground arith

is_nil-sorted : (xs : List String) → is_nil (sorted xs) ≡ is_nil xs
unfolding sorted
is_nil-sorted [] = refl
is_nil-sorted (x ∷ xs) = is_nil-insert_text x (sorted xs)

is_nil-set_minus : (a b : List String) → is_nil (set_minus a b) ≡ all (λ x. elem x b) a
unfolding set_minus
is_nil-set_minus [] b = refl
is_nil-set_minus (x ∷ a) b = ground (arith, is_nil-set_minus a b)

all-All :
    (p : String → Bool) (P : String → Type 0)
    → ((x : String) → (p x ≡ true) ↔ P x)
    → (xs : List String) → (all p xs ≡ true) ↔ All P xs
all-All p P h [] = (λ e. tt, λ a. refl)
all-All p P h (x ∷ xs) = (
  λ e. ((h x).0 (ground (arith, e)), (all-All p P h xs).0 (ground (arith, e))),
  λ a. ground (arith, (h x).1 a.0, (all-All p P h xs).1 a.1),
)

-- Each section has the same rows on both sides.
abbrev pub Agree : Side → Side → Type 0
Agree left right =
    All (λ s. (row : String) → elem row (left.rows s) ≡ elem row (right.rows s)) section_names

module _ (loads : String → Json) (left right : Side) where
  is_nil-diff_section :
      (section : String)
      → is_nil (diff_section loads left right section)
        ≡ same_set (left.rows section) (right.rows section)
  unfolding diff_section same_set
  is_nil-diff_section section =
      let a = left.rows section in
      let b = right.rows section in
      simp (is_nil-append, is_nil-map, is_nil-sorted, is_nil-set_minus) refl

  is_nil-diff_sections :
      (sections : List String)
      → is_nil (diff_sections loads left right sections)
        ≡ all (λ s. same_set (left.rows s) (right.rows s)) sections
  unfolding diff_sections
  is_nil-diff_sections [] = refl
  is_nil-diff_sections (s ∷ rest) =
      rw
        (
          is_nil-append (diff_section loads left right s) (diff_sections loads left right rest),
          is_nil-diff_section s,
          is_nil-diff_sections rest,
        )
        refl

  agreement : (is_nil (diff loads left right) ≡ true) ↔ Agree left right
  unfolding diff
  agreement =
      let sections =
        all-All _ (λ s. (row : String) → elem row (left.rows s) ≡ elem row (right.rows s))
          (λ s. same_set-members (left.rows s) (right.rows s)) section_names in
      (
        λ e. sections.0 (sym (is_nil-diff_sections section_names) ∙ e),
        λ a. is_nil-diff_sections section_names ∙ sections.1 a,
      )

  module _ (app_role : String) (rows : List (String × String)) (forced : List String) where
    is_nil-owner_premise :
        is_nil (owner_premise app_role rows forced) ≡ is_nil rows && is_nil forced
    unfolding owner_premise
    is_nil-owner_premise = simp (is_nil-append, is_nil-map) refl

    run_empty :
        (run loads left right app_role rows forced).empty
        ≡ is_nil (diff loads left right) && (is_nil rows && is_nil forced)
    unfolding run
    run_empty = ap (λ b. is_nil (diff loads left right) && b) is_nil-owner_premise

    -- The report is empty exactly when every section has the same rows on both sides, and neither query
    -- of the premise on owners returned a row.
    pub run-Agree :
        ((run loads left right app_role rows forced).empty ≡ true)
        ↔ (Agree left right × (rows ≡ []) × (forced ≡ []))
    run-Agree = (
      λ e.
          let tests = sym run_empty ∙ e in
          (
            agreement.0 (ground (arith, tests)),
            is_nil_eq rows (ground (arith, tests)),
            is_nil_eq forced (ground (arith, tests)),
          ),
      λ h. run_empty ∙ ground (arith, agreement.1 h.0, ap is_nil h.1, ap is_nil h.2),
    )

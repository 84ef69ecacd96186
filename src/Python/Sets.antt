-- ===== src/Python/Sets.antt =====
-- Python's sets of texts, held as lists, seen by what they contain.
use qontinui_stack.Prelude.{
  ℕ, suc, ◌≤◌, ◌<◌, String, ◌≡◌, refl, ap, true, false, ◌||◌, ◌⊎◌, inl, inr, List, [], ◌∷◌, ◌++◌,
  arith, elem, length, ◌==◌, eq_iff, eq_refl, All, if◌then◌else◌,
}
use qontinui_stack.Python.Lists.{insert_text, sorted}

-- s.add(x), which changes nothing where x is a member.
abbrev pub add : String → List String → List String
add x xs = if elem x xs then xs else xs ++ x ∷ []

pub elem-here : (x : String) (xs : List String) → elem x (x ∷ xs) ≡ true
elem-here x xs = ground (arith, eq_refl x)

pub elem-cons :
    (x y : String) (xs : List String) → elem x (y ∷ xs) ≡ true → (x ≡ y) ⊎ (elem x xs ≡ true)
elem-cons x y xs h = ground (arith, eq_iff x y)

pub elem-append : (x : String) (xs ys : List String) → elem x (xs ++ ys) ≡ elem x xs || elem x ys
elem-append x [] ys = refl
elem-append x (y ∷ xs) ys = ground (arith, elem-append x xs ys)

elem-insert_text :
    (x y : String) (xs : List String) → elem x (insert_text y xs) ≡ x == y || elem x xs
unfolding insert_text
elem-insert_text x y [] = refl
elem-insert_text x y (z ∷ xs) = ground (arith, elem-insert_text x y xs)

pub elem-sorted : (x : String) (xs : List String) → elem x (sorted xs) ≡ elem x xs
unfolding sorted
elem-sorted x [] = refl
elem-sorted x (y ∷ xs) = ground (arith, elem-sorted x xs, elem-insert_text x y (sorted xs))

-- A predicate of every member, as one of every element.
pub All-of_elem :
    (P : String → Type 0) (xs : List String) → ((x : String) → elem x xs ≡ true → P x) → All P xs
All-of_elem P [] h = tt
All-of_elem P (x ∷ xs) h = (h x (elem-here x xs), All-of_elem P xs (λ y m. h y (ground (arith, m))))

-- How many of the texts are not members of a set.
abbrev pub outside : List String → List String → ℕ
outside set [] = 0
outside set (x ∷ xs) = if elem x set then outside set xs else suc (outside set xs)

pub outside-le : (set xs : List String) → outside set xs ≤ length xs
outside-le set [] = omega arith
outside-le set (x ∷ xs) = ground (arith, outside-le set xs)

module _ (x : String) (set more : List String)
    (h : (y : String) → elem y more ≡ elem y set || y == x) where
  outside-more-le : (xs : List String) → outside more xs ≤ outside set xs
  outside-more-le [] = omega arith
  outside-more-le (y ∷ xs) = ground (arith, outside-more-le xs, h y)

  -- A new member that is one of the texts leaves fewer of them outside.
  outside-more-lt :
      (xs : List String) → elem x set ≡ false → elem x xs ≡ true → outside more xs < outside set xs
  outside-more-lt [] out m = cc
  outside-more-lt (y ∷ xs) out m = elim (elem-cons x y xs m) [
    | inl e ↦
        ground
          (arith, outside-more-le xs, h y, eq_refl y, ap (λ z. elem z set) e, ap (λ z. y == z) e)
    | inr later ↦ ground (arith, outside-more-lt xs out later, h y)
  ]

pub elem-last : (y x : String) (set : List String) → elem y (set ++ x ∷ []) ≡ elem y set || y == x
elem-last y x [] = ground arith
elem-last y x (z ∷ set) = ground (arith, elem-last y x set)

pub outside-append-lt :
    (set : List String) (x : String) (xs : List String)
    → elem x set ≡ false
    → elem x xs ≡ true
    → outside (set ++ x ∷ []) xs < outside set xs
outside-append-lt set x xs = outside-more-lt x set (set ++ x ∷ []) (λ y. elem-last y x set) xs

pub outside-cons-lt :
    (set : List String) (x : String) (xs : List String)
    → elem x set ≡ false
    → elem x xs ≡ true
    → outside (x ∷ set) xs < outside set xs
outside-cons-lt set x xs = outside-more-lt x set (x ∷ set) (λ y. ground arith) xs

pub elem-add : (x y : String) (xs : List String) → elem y (add x xs) ≡ elem y xs || y == x
elem-add x y xs = ground (arith, elem-last y x xs, eq_iff y x)

pub outside-cons-le :
    (set : List String) (x : String) (xs : List String) → outside (x ∷ set) xs ≤ outside set xs
outside-cons-le set x xs = outside-more-le x set (x ∷ set) (λ y. ground arith) xs

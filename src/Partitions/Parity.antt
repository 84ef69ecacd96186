-- ===== src/Partitions/Parity.antt =====
-- When local/postgres/lib/qpg/partitions.py reports parity.
use qontinui_stack.Prelude.{
  String, ◌≡◌, refl, ◌↔◌, Bool, true, false, Option, none, some, List, [], ◌∷◌, inl, inr, all, All,
  elem, arith, ◌==◌, eq_iff, eq_refl, sym, ◌∙◌, Bool-cases,
}
use qontinui_stack.Partitions.{
  Difference, same_set, compare_children, add, is_empty, differences, parity,
}

-- Both sides hold the partitioned table, with the same names of partitions.
abbrev pub IsMatched : Option (List String) → Option (List String) → Type 0
IsMatched none b = ⊥
IsMatched (some a) none = ⊥
IsMatched (some a) (some b) = (x : String) → elem x a ≡ elem x b

all-elem :
    (xs ys : List String)
    → all (λ x. elem x ys) xs ≡ true
    → (x : String) → elem x xs ≡ true
    → elem x ys ≡ true
all-elem [] ys h x e = ground arith
all-elem (y ∷ xs) ys h x e = elim (Bool-cases (x == y)) [
  | inl q ↦ ground (arith, eq_iff x y)
  | inr q ↦ all-elem xs ys (ground arith) x (ground arith)
]

all-of :
    (xs ys : List String)
    → ((x : String) → elem x xs ≡ true → elem x ys ≡ true)
    → all (λ x. elem x ys) xs ≡ true
all-of [] ys h = refl
all-of (y ∷ xs) ys h =
    ground (arith, h y (ground (arith, eq_refl y)), all-of xs ys (λ x e. h x (ground (arith, e))))

both_ways : (b c : Bool) → (b ≡ true → c ≡ true) → (c ≡ true → b ≡ true) → b ≡ c
both_ways true c f g = sym (f refl)
both_ways false true f g = g refl
both_ways false false f g = refl

-- The test on sets holds exactly where the lists have the same members.
pub same_set-members :
    (a b : List String) → (same_set a b ≡ true) ↔ ((x : String) → elem x a ≡ elem x b)
unfolding same_set
same_set-members a b = (
  λ h x. both_ways _ _ (all-elem a b (ground (arith, h)) x) (all-elem b a (ground (arith, h)) x),
  λ h. ground (arith, all-of a b (λ x e. sym (h x) ∙ e), all-of b a (λ x e. h x ∙ e)),
)

compare_children_lem :
    (parent : String) (a b : Option (List String))
    → (compare_children parent a b ≡ none) ↔ IsMatched a b
unfolding compare_children
compare_children_lem parent none none = (λ h. ground arith, λ m. elim m [ ])
compare_children_lem parent none (some b) = (λ h. ground arith, λ m. elim m [ ])
compare_children_lem parent (some a) none = (λ h. ground arith, λ m. elim m [ ])
compare_children_lem parent (some a) (some b) = (
  λ h. (same_set-members a b).0 (ground (arith, h)),
  λ m. ground (arith, (same_set-members a b).1 m),
)

none_added :
    (d : Option Difference) (rest : List Difference)
    → is_empty (add d rest) ≡ true
    → (d ≡ none) × (is_empty rest ≡ true)
none_added none rest h = (refl, h)
none_added (some d) rest h = ground arith

nothing_added :
    (d : Option Difference) (rest : List Difference)
    → d ≡ none
    → is_empty rest ≡ true
    → is_empty (add d rest) ≡ true
nothing_added none rest e h = h
nothing_added (some d) rest e h = ground arith

-- Parity is reported exactly when every partitioned table that is compared is there on both sides
-- with the same names of partitions.
pub parity-equal :
    (on_publisher on_subscriber : String → Option (List String)) (roots : List String)
    → ((parity on_publisher on_subscriber roots).equal ≡ true)
      ↔ All (λ parent. IsMatched (on_publisher parent) (on_subscriber parent)) roots
unfolding parity differences
parity-equal on_publisher on_subscriber [] = (λ h. tt, λ h. refl)
parity-equal on_publisher on_subscriber (parent ∷ rest) =
    let here = compare_children_lem parent (on_publisher parent) (on_subscriber parent) in
    let later = parity-equal on_publisher on_subscriber rest in
    (
      λ h.
          let (a, b) = none_added _ (differences on_publisher on_subscriber rest) h in
          (here.0 a, later.0 b),
      λ h. nothing_added _ (differences on_publisher on_subscriber rest) (here.1 h.0) (later.1 h.1),
    )

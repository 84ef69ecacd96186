-- ===== src/Partitions.antt =====
-- local/postgres/lib/qpg/partitions.py: the maintenance call, and the comparison of the partitions on
-- publisher and subscriber. What the databases answer is a parameter.
pub mod Parity
use qontinui_stack.Prelude.{
  ℕ, String, ◌≡◌, refl, Bool, true, false, not, ◌&&◌, Option, none, some, List, [], ◌∷◌, length,
  all, elem, ◌==◌, if◌then◌else◌,
}
use qontinui_stack.Python.{concat}
use qontinui_stack.Python.Lists.{sorted, without}

pub data Difference : Type 0 where
  absent_on : (parent side : String) → Difference
  differing :
      (parent : String) (only_on_publisher only_on_subscriber : List String)
      (count_publisher count_subscriber : ℕ)
      → Difference

-- set(a) == set(b)
unfoldable pub same_set : List String → List String → Bool
same_set a b = all (λ x. elem x b) a && all (λ x. elem x a) b

-- set(a) - set(b), each name once
unfoldable pub set_minus : List String → List String → List String
set_minus [] b = []
set_minus (x ∷ a) b = let rest = set_minus a b in if elem x b then rest else x ∷ without x rest

-- `compare_children`
unfoldable pub compare_children :
    (parent : String) → Option (List String) → Option (List String) → Option Difference
compare_children parent none none = some (absent_on parent "both")
compare_children parent none (some b) = some (absent_on parent "publisher")
compare_children parent (some a) none = some (absent_on parent "subscriber")
compare_children parent (some a) (some b) =
    if same_set a b
    then none
    else some
        (differing parent (sorted (set_minus a b)) (sorted (set_minus b a)) (length a) (length b))

-- One entry of `checked`: the counts on both sides.
pub record Checked : Type 0 where
  pub parent : String
  pub publisher : Option ℕ
  pub subscriber : Option ℕ

pub record Report : Type 0 where
  pub equal : Bool
  pub checked : List Checked
  pub differences : List Difference

abbrev count_of : Option (List String) → Option ℕ
count_of none = none
count_of (some xs) = some (length xs)

abbrev add : Option Difference → List Difference → List Difference
add none rest = rest
add (some d) rest = d ∷ rest

abbrev is_empty : List Difference → Bool
is_empty [] = true
is_empty (d ∷ rest) = false

module _ (on_publisher on_subscriber : String → Option (List String)) where
  unfoldable pub differences : List String → List Difference
  differences [] = []
  differences (parent ∷ rest) =
      add (compare_children parent (on_publisher parent) (on_subscriber parent)) (differences rest)

  unfoldable pub checked : List String → List Checked
  checked [] = []
  checked (parent ∷ rest) =
      record {
        parent = parent;
        publisher = count_of (on_publisher parent);
        subscriber = count_of (on_subscriber parent);
      }
      ∷ checked rest

  -- `parity` over its roots
  unfoldable pub parity : List String → Report
  parity roots = record {
    equal = is_empty (differences roots);
    checked = checked roots;
    differences = differences roots;
  }

pub data Maintenance : Type 0 where
  disabled absent ran : Maintenance
  partition_error : Maintenance

-- `run`: what it returns, or the error that it raises, and whether the function was called.
unfoldable pub run : (enabled present require_function : Bool) → Maintenance × Bool
run enabled present require_function =
    if not enabled
    then (disabled, false)
    else if not present
    then (if require_function then partition_error else absent, false)
    else (ran, true)

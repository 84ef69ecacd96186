-- ===== src/Plans/Cycles.antt =====
-- scripts/plan-graph.py: `_detect_cycles`. The recursion of `dfs` is on fuel, for its depth; the
-- stack is passed down, since `dfs` leaves it as it found it, and `in_stack` is its members.
pub mod Sound
pub mod Ends
pub mod Complete
use Prim.Native.String.{compare}
use text.Mathlib.Text.{is_lt}
use qontinui_stack.Prelude.{
  ℕ, zero, suc, String, ◌≡◌, refl, Bool, true, false, ◌&&◌, Option, none, some, List, [], ◌∷◌, ◌++◌,
  elem, any, length, ◌==◌, if◌then◌else◌,
}
use qontinui_stack.Prelude.Options.{◌>>=◌}
use qontinui_stack.Python.Lists.{sorted, same_texts}
use qontinui_stack.Plans.Graph.{Graph, empty_graph, add_edge, ensure_node, keys, targets}

-- min(texts), for a text and those after it.
abbrev least : String → List String → String
least s [] = s
least s (t ∷ rest) = if is_lt (compare t s) then least t rest else least s rest

-- loop[:i] and loop[i:], where i is the first place of a text.
abbrev before : String → List String → List String
before s [] = []
before s (t ∷ rest) = let kept = before s rest in if t == s then [] else t ∷ kept

abbrev pub from_first : String → List String → List String
from_first s [] = []
from_first s (t ∷ rest) = let later = from_first s rest in if t == s then t ∷ rest else later

-- cycle[:-1]
abbrev pub but_last : List String → List String
but_last [] = []
but_last (s ∷ []) = []
but_last (s ∷ t ∷ rest) = s ∷ but_last (t ∷ rest)

unfoldable pub canonical : List String → List String
canonical cycle = elim (but_last cycle) [
  | [] ↦ cycle
  | s ∷ rest ↦ let first = least s rest in from_first first (s ∷ rest) ++ before first (s ∷ rest)
]

pub record Walk : Type 0 where
  pub cycles : List (List String)
  pub seen_signatures : List (List String)
  pub visited : List String

-- What the loop over the neighbours does with one of them.
pub data Move : Type 0 where
  closes descends skips : Move

unfoldable pub move : List String → Walk → String → Move
move stack w nbr = if elem nbr stack then closes else if elem nbr w.visited then skips else descends

-- A back edge to a stem of the stack.
unfoldable pub close : List String → String → Walk → Walk
unfolding canonical
close stack nbr w =
    let cycle = from_first nbr stack ++ nbr ∷ [] in
    let sig = canonical cycle in
    if any (same_texts sig) w.seen_signatures
    then w
    else record w { cycles = w.cycles ++ cycle ∷ []; seen_signatures = sig ∷ w.seen_signatures }

abbrev pub leave : String → Walk → Walk
leave node w = record w { visited = node ∷ w.visited }

-- The loop over the neighbours of the last stem of the stack. With the empty stack it is the loop
-- over all stems at the end: no stem is in the stack there.
pub explore : Graph → ℕ → List String → List String → Walk → Option Walk
unfolding move close
explore g fuel stack [] w = some w
explore g zero stack (nbr ∷ nbrs) w = elim (move stack w nbr) [
  | closes ↦ explore g zero stack nbrs (close stack nbr w)
  | skips ↦ explore g zero stack nbrs w
  | descends ↦ none
]
explore g (suc fuel) stack (nbr ∷ nbrs) w = elim (move stack w nbr) [
  | closes ↦ explore g (suc fuel) stack nbrs (close stack nbr w)
  | skips ↦ explore g (suc fuel) stack nbrs w
  | descends ↦ do
    inner ← explore g fuel (stack ++ nbr ∷ []) (sorted (targets g nbr)) w
    explore g (suc fuel) stack nbrs (leave nbr inner)
]

abbrev pub fresh : Walk
fresh = record { cycles = []; seen_signatures = []; visited = [] }

-- The depth is at most the number of stems, since no stem is twice in the stack.
unfoldable pub detect_cycles : Graph → Option (List (List String))
unfolding explore
detect_cycles g = do w ← explore g (length g.nodes) [] (sorted (keys g.nodes)) fresh; some w.cycles

two : Graph
unfolding add_edge ensure_node
two =
    add_edge "b" "a"
      (add_edge "a" "b" (ensure_node "b" "DRAFT" none (ensure_node "a" "DRAFT" none empty_graph)))

two_test : detect_cycles two ≡ some (("a" ∷ "b" ∷ "a" ∷ []) ∷ [])
unfolding detect_cycles two sorted
two_test = refl

-- ===== src/Prelude/Assoc.antt =====
-- Python's `dict` with text keys, as an association list.
use Prim.Native.String.{String}
use mathlib.Core.Path.{◌≡◌}
use mathlib.Core.Logic.{inl, inr}
use mathlib.Core.Bool.{Bool}
use native.Mathlib.Omega.{arith}
use text.Mathlib.TextEquality.{eq_iff}
use mathlib.Core.Option.{Option, none, some}
use mathlib.Core.List.{List, [], ◌∷◌}
use text.Mathlib.Text.{◌==◌}
use qontinui_stack.Prelude.Tests.{Bool-cases, if◌then◌else◌}

abbrev is_for {ℓ} : {V : Type ℓ} → String → String × V → Bool
is_for key entry = entry.0 == key

-- The value of the first entry for the key, as `.get` gives it.
abbrev pub lookup {ℓ} : {V : Type ℓ} → String → List (String × V) → Option V
lookup key [] = none
lookup key (entry ∷ others) = if is_for key entry then some entry.1 else lookup key others

-- Assignment to a key: its entry is replaced where it stands, or added at the end.
abbrev pub insert {ℓ} : {V : Type ℓ} → String → V → List (String × V) → List (String × V)
insert key value [] = (key, value) ∷ []
insert key value (entry ∷ others) =
    let changed = insert key value others in
    if is_for key entry then (key, value) ∷ others else entry ∷ changed

pub lookup-insert {ℓ} :
    {V : Type ℓ} (entries : List (String × V)) (k x : String) (v : V)
    → lookup x (insert k v entries) ≡ (if x == k then some v else lookup x entries)
lookup-insert [] k x v = ground (arith, eq_iff k x, eq_iff x k)
lookup-insert (entry ∷ others) k x v = elim (Bool-cases (entry.0 == k)) [
  | inl e ↦ ground (arith, eq_iff entry.0 k, eq_iff k x, eq_iff x k)
  | inr e ↦ ground (arith, lookup-insert others k x v, eq_iff entry.0 x, eq_iff x k)
]

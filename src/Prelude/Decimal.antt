-- ===== src/Prelude/Decimal.antt =====
-- The decimal text of a number, as Python's `str` prints it.
use Prim.Native.Nat.{ℕ, zero, suc, ◌/◌, ◌%◌}
use Prim.Native.String.{String, ◌++◌}
use mathlib.Core.Path.{◌≡◌, refl}
use mathlib.Core.List.{List, [], ◌∷◌}
use qontinui_stack.Prelude.Tests.{ltb, if◌then◌else◌}

abbrev digit_text : ℕ → String
digit_text n = go n ("0" ∷ "1" ∷ "2" ∷ "3" ∷ "4" ∷ "5" ∷ "6" ∷ "7" ∷ "8" ∷ "9" ∷ [])
  where
    go : ℕ → List String → String
    go k [] = ""
    go zero (d ∷ ds) = d
    go (suc k) (d ∷ ds) = go k ds

-- The fuel n + 1 is enough for n, since each step divides by ten.
decimal_fuel : ℕ → ℕ → String
decimal_fuel zero n = ""
decimal_fuel (suc f) n =
    let rest = decimal_fuel f (n / 10) in
    if ltb n 10 then digit_text n else rest ++ digit_text (n % 10)

unfoldable pub decimal : ℕ → String
unfolding decimal_fuel
decimal n = decimal_fuel (suc n) n

decimal_test : decimal 1024 ≡ "1024"
unfolding decimal
decimal_test = refl

-- ===== src/Follower/Lsn.antt =====
-- `lsn_int` of local/postgres/lib/qpg/follower.py.
use Prim.Native.Char.{code}
use Prim.Native.String.{[] as nil, ◌∷◌ as cons}
use qontinui_stack.Prelude.{
  ℕ, ◌+◌, ◌-◌, ◌*◌, ◌^◌, String, ◌≡◌, refl, ◌&&◌, Option, none, some, leb, nat_eq, ◌==◌,
  if◌then◌else◌,
}

-- The value of a hexadecimal digit; PostgreSQL prints no other character.
abbrev hex_digit : ℕ → ℕ
hex_digit c =
    if leb b'0' c && leb c b'9'
    then c - 48
    else if leb b'a' c && leb c b'f'
    then c - 87
    else if leb b'A' c && leb c b'F'
    then c - 55
    else 0

hex_from : ℕ → String → ℕ
hex_from acc nil = acc
hex_from acc (cons c s) = hex_from (acc * 16 + hex_digit (code c)) s

-- The two halves around the first slash.
halves : String → String × String
halves nil = ("", "")
halves (cons c s) =
    let (hi, lo) = halves s in if nat_eq (code c) b'/' then ("", s) else (cons c hi, lo)

abbrev pub combine : ℕ → ℕ → ℕ
combine hi lo = hi * 2 ^ 32 + lo

abbrev value_of : String × String → ℕ
value_of (hi, lo) = combine (hex_from 0 hi) (hex_from 0 lo)

-- `(int(hi, 16) << 32) + int(lo, 16)`, and 0 for no text.
unfoldable pub lsn_int : Option String → ℕ
unfolding hex_from halves
lsn_int none = 0
lsn_int (some lsn) = if lsn == "" then 0 else value_of (halves lsn)

lsn_int_test : lsn_int (some "16/B374D848") ≡ 97500059720
unfolding lsn_int
lsn_int_test = refl

-- ===== src/Python/Json.antt =====
-- The values that `json.loads` gives, and what Python does with such a value.
use qontinui_stack.Prelude.{
  ℕ, String, ◌≡◌, refl, Bool, true, false, not, ◌||◌, Option, none, some, List, [], ◌∷◌, arith,
  ◌==◌, elem, if◌then◌else◌,
}

-- A number is held by the text that `str` prints for it, which determines it: 1, -3, 2.5, 1e+22.
mutual
  pub data Json : Type 0 where
    null : Json
    bool : Bool → Json
    num : String → Json
    str : String → Json
    arr : Items → Json
    obj : Fields → Json

  pub data Items : Type 0 where
    nil : Items
    cons : Json → Items → Items

  pub data Fields : Type 0 where
    end : Fields
    field : String → Json → Fields → Fields

-- d.get(key): None where the key is absent, and where its value is null.
unfoldable pub get : Fields → String → Json
get end key = null
get (field k v rest) key = if k == key then v else get rest key

-- d.get(key, default)
unfoldable pub get_or : Fields → String → Json → Json
get_or end key default = default
get_or (field k v rest) key default = if k == key then v else get_or rest key default

-- key in d
unfoldable pub has_key : Fields → String → Bool
has_key end key = false
has_key (field k v rest) key = k == key || has_key rest key

abbrev pub to_list : Items → List Json
to_list nil = []
to_list (cons x xs) = x ∷ to_list xs

-- bool(value)
unfoldable pub truthy : Json → Bool
truthy null = false
truthy (bool b) = b
truthy (num t) = not (t == "0" || t == "0.0" || t == "-0.0")
truthy (str s) = not (s == "")
truthy (arr nil) = false
truthy (arr (cons x xs)) = true
truthy (obj end) = false
truthy (obj (field k v rest)) = true

-- value == 1, which in Python holds of 1.0 and of True as well.
unfoldable pub equals_one : Json → Bool
equals_one (num t) = t == "1" || t == "1.0"
equals_one (bool b) = b
equals_one _ = false

-- The text that a value in a tuple of texts is, if it is one of them.
unfoldable pub member : Json → List String → Option String
member (str s) names = if elem s names then some s else none
member _ names = none

-- isinstance(value, dict), isinstance(value, str), isinstance(value, list)
abbrev pub as_object : Json → Option Fields
as_object (obj fields) = some fields
as_object _ = none

abbrev pub as_text : Json → Option String
as_text (str s) = some s
as_text _ = none

abbrev pub as_items : Json → Option Items
as_items (arr items) = some items
as_items _ = none

-- What the programs take from Python's library and do not define: `json.loads` (none where it
-- raises), the text that `str` prints for a list or an object, and the calendar.
pub record Runtime : Type 0 where
  pub loads : String → Option Json
  pub repr : Json → String
  -- a time in microseconds, from `datetime.fromisoformat` of the normalised text, in UTC
  pub from_iso : String → Option ℕ
  pub iso_text : ℕ → String
  -- the letters and digits of \w with the underscore, and the digits of \d
  pub word_code : ℕ → Bool
  pub digit_code : ℕ → Bool

module _ (py : Runtime) where
  -- str(value)
  unfoldable pub str_of : Json → String
  str_of null = "None"
  str_of (bool true) = "True"
  str_of (bool false) = "False"
  str_of (num t) = t
  str_of (str s) = s
  str_of (arr items) = py.repr (arr items)
  str_of (obj fields) = py.repr (obj fields)

  -- str(value or "")
  unfoldable pub str_or_empty : Json → String
  unfolding str_of truthy
  str_or_empty v = if truthy v then str_of v else ""

  -- str(value or default)
  unfoldable pub str_or : Json → String → String
  unfolding str_of truthy
  str_or v default = if truthy v then str_of v else default

-- A member of a tuple of texts is one of them.
pub member-elem :
    (v : Json) (names : List String) (s : String) → member v names ≡ some s → elem s names ≡ true
unfolding member
member-elem (str t) names s h = ground arith
member-elem _ names s h = ground arith

get_test : get (field "a" null (field "b" (str "x") end)) "b" ≡ str "x"
unfolding get
get_test = refl

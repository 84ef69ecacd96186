-- ===== src/Python/Lists.antt =====
-- Python's `sorted` on texts, and its operations on sets of texts, held as lists.
use Prim.Native.String.{compare}
use text.Mathlib.Text.{is_lt}
use qontinui_stack.Prelude.{
  String, ◌≡◌, refl, Bool, true, false, ◌&&◌, List, [], ◌∷◌, elem, ◌==◌, if◌then◌else◌,
}

unfoldable pub insert_text : String → List String → List String
insert_text s [] = s ∷ []
insert_text s (t ∷ rest) = if is_lt (compare s t) then s ∷ t ∷ rest else t ∷ insert_text s rest

-- sorted(texts)
unfoldable pub sorted : List String → List String
unfolding insert_text
sorted [] = []
sorted (s ∷ rest) = insert_text s (sorted rest)

-- texts - others
unfoldable pub minus : List String → List String → List String
minus [] others = []
minus (s ∷ rest) others = let kept = minus rest others in if elem s others then kept else s ∷ kept

-- list(dict.fromkeys(texts)): each text once, at its first place.
unfoldable pub without : String → List String → List String
without s [] = []
without s (t ∷ rest) = let kept = without s rest in if s == t then kept else t ∷ kept

-- Two lists of texts are equal.
unfoldable pub same_texts : List String → List String → Bool
same_texts [] [] = true
same_texts [] (t ∷ ts) = false
same_texts (s ∷ ss) [] = false
same_texts (s ∷ ss) (t ∷ ts) = s == t && same_texts ss ts

sorted_test : sorted ("b" ∷ "a" ∷ "c" ∷ []) ≡ "a" ∷ "b" ∷ "c" ∷ []
unfolding sorted
sorted_test = refl

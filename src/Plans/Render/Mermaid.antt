-- ===== src/Plans/Render/Mermaid.antt =====
-- scripts/plan-graph.py: the Mermaid rendering, and the value that the JSON rendering dumps.
-- `alnum_code` is the table of `str.isalnum`.
use Prim.Native.Char.{Char, code}
use Prim.Native.String.{[] as nil, ◌∷◌ as cons, ◌++◌ as append}
use text.Mathlib.TextLemmas.{
  append-nil, nil-append, cons-append, cons≢nil, head-eq_of_cons-eq, tail-eq_of_cons-eq,
}
use text.Mathlib.TextEquality.{Char-path}
use qontinui_stack.Prelude.{
  is_nil, ℕ, String, ◌≡◌, refl, sym, ap, ◌∙◌, Bool, true, false, ◌&&◌, ◌||◌, Option, none, some,
  List, [], ◌∷◌, ◌++◌, arith, map, nat_eq, inl, inr, Bool-cases, if◌then◌else◌,
}
use qontinui_stack.Prelude.Assoc.{lookup}
use qontinui_stack.Python.{concat, join}
use qontinui_stack.Python.Json.{
  Json, Items, null, str, arr, obj, nil as no_items, cons as item, end, field,
}
use qontinui_stack.Python.Lists.{sorted}
use qontinui_stack.Plans.Graph.{Node, Graph, keys, targets}
use qontinui_stack.Plans.Render.{status_of, cycle_line}

module _ (alnum_code : ℕ → Bool) where
  abbrev safe_char : Char → Char
  safe_char c = if alnum_code (code c) then c else "_"

  unfoldable pub safe : String → String
  safe nil = ""
  safe (cons c s) = cons (safe_char c) (safe s)

  unfoldable pub mermaid_id : String → String
  unfolding safe
  mermaid_id stem = concat ("n_" ∷ safe stem ∷ [])

  abbrev node_line : Graph → String → String
  unfolding mermaid_id
  node_line g stem = concat (
      "  "
      ∷ mermaid_id stem
      ∷ "[\""
      ∷ stem
      ∷ "<br/>"
      ∷ status_of (lookup stem g.nodes)
      ∷ "\"];"
      ∷ [])

  abbrev edge_line : String → String → String
  unfolding mermaid_id
  edge_line src dst = concat ("  " ∷ mermaid_id src ∷ " --> " ∷ mermaid_id dst ∷ ";" ∷ [])

  abbrev edge_lines : Graph → List String → List String
  edge_lines g [] = []
  edge_lines g (src ∷ rest) =
      map (λ dst. edge_line src dst) (sorted (targets g src)) ++ edge_lines g rest

  unfoldable pub render_mermaid : Graph → String
  unfolding sorted edge_line node_line
  render_mermaid g = join "\n" (
      ("graph TD;" ∷ map (λ stem. node_line g stem) (sorted (keys g.nodes)))
      ++ edge_lines g (sorted (keys g.edges))
      ++ (if is_nil g.cycles
          then []
          else "" ∷ "%% CYCLES DETECTED:" ∷ map (cycle_line "%%   ") g.cycles)
      ++ (if is_nil g.missing
          then []
          else ""
            ∷ "%% MISSING DEPS:"
            ∷ map (λ stem. concat ("%%   " ∷ stem ∷ [])) (sorted g.missing)))

-- The value that `json.dumps` is called with.
abbrev items : List Json → Items
items [] = no_items
items (x ∷ xs) = item x (items xs)

abbrev texts : List String → Json
texts xs = arr (items (map (λ s. str s) xs))

abbrev location_value : Option String → Json
location_value none = null
location_value (some s) = str s

abbrev location_of : Option Node → Option String
location_of none = none
location_of (some node) = node.location

abbrev node_value : Graph → String → Json
node_value g stem = obj (
    field "stem" (str stem) (
      field "status" (str (status_of (lookup stem g.nodes)))
        (field "location" (location_value (location_of (lookup stem g.nodes))) end)))

abbrev edge_value : String → String → Json
edge_value src dst = obj (field "from" (str src) (field "to" (str dst) end))

abbrev edge_values : Graph → List String → List Json
edge_values g [] = []
edge_values g (src ∷ rest) =
    map (λ dst. edge_value src dst) (sorted (targets g src)) ++ edge_values g rest

unfoldable pub json_payload : Graph → Json
unfolding sorted
json_payload g = obj (
    field "nodes" (arr (items (map (λ stem. node_value g stem) (sorted (keys g.nodes))))) (
      field "edges" (arr (items (edge_values g (sorted (keys g.edges))))) (
        field "missing" (texts (sorted g.missing))
          (field "cycles" (arr (items (map texts g.cycles))) end))))

module _ (alnum_code : ℕ → Bool) where
  -- Letters, digits and dashes.
  abbrev pub is_dashed : String → Bool
  is_dashed nil = true
  is_dashed (cons c s) = (alnum_code (code c) || nat_eq (code c) b'-') && is_dashed s

  abbrev allowed : Char → Bool
  allowed c = alnum_code (code c) || nat_eq (code c) b'-'

  safe_char-injective :
      (c d : Char)
      → alnum_code b'_' ≡ false
      → allowed c ≡ true
      → allowed d ≡ true
      → safe_char alnum_code c ≡ safe_char alnum_code d
      → c ≡ d
  safe_char-injective c d u a b e = elim (Bool-cases (alnum_code (code c))) [
    | inl x ↦ elim (Bool-cases (alnum_code (code d))) [
      | inl y ↦ rw (x, y) at e
      | inr y ↦ cc (u, ap (λ z. alnum_code (code z)) (rw (x, y) at e), x)
    ]
    | inr x ↦ elim (Bool-cases (alnum_code (code d))) [
      | inl y ↦ cc (u, ap (λ z. alnum_code (code z)) (rw (x, y) at e), y)
      | inr y ↦ Char-path c d (ground (arith, x, y, a, b))
    ]
  ]

  safe-injective :
      (s t : String)
      → alnum_code b'_' ≡ false
      → is_dashed s ≡ true
      → is_dashed t ≡ true
      → safe alnum_code s ≡ safe alnum_code t
      → s ≡ t
  unfolding safe
  safe-injective nil nil u a b e = refl
  safe-injective nil (cons d t) u a b e = absurd (cons≢nil (sym e))
  safe-injective (cons c s) nil u a b e = absurd (cons≢nil e)
  safe-injective (cons c s) (cons d t) u a b e =
      let head =
        safe_char-injective c d u (ground (arith, a)) (ground (arith, b)) (head-eq_of_cons-eq e) in
      let tail =
        safe-injective s t u (ground (arith, a)) (ground (arith, b)) (tail-eq_of_cons-eq e) in
      ap (λ x. cons x s) head ∙ ap (cons d) tail

  after_prefix : (x : String) → append "n_" x ≡ cons "n" (cons "_" x)
  after_prefix x =
      cons-append "n" "_" x ∙ ap (cons "n") (cons-append "_" "" x ∙ ap (cons "_") (nil-append x))

  -- Stems of letters, digits and dashes have different ids.
  pub mermaid_id-injective :
      (s t : String)
      → alnum_code b'_' ≡ false
      → is_dashed s ≡ true
      → is_dashed t ≡ true
      → mermaid_id alnum_code s ≡ mermaid_id alnum_code t
      → s ≡ t
  unfolding mermaid_id
  mermaid_id-injective s t u a b e =
      let prefixed =
        sym (after_prefix (append (safe alnum_code s) ""))
        ∙ e
        ∙ after_prefix (append (safe alnum_code t) "") in
      let bare = tail-eq_of_cons-eq (tail-eq_of_cons-eq prefixed) in
      safe-injective s t u a b (sym (append-nil _) ∙ bare ∙ append-nil _)

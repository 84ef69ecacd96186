-- ===== src/Relay/Render/Bounds.antt =====
-- The lengths of what `render` gives, and its last line (aws/lambdas/operator_pager_relay/handler.py).
use Prim.Native.String.{count, ◌++◌ as append}
use text.Mathlib.TextLemmas.{length-append}
use qontinui_stack.Prelude.{ℕ, ◌-◌, ◌≤◌, ◌<◌, String, ◌≡◌, refl, Bool, arith, Bool-cases, inl, inr}
use qontinui_stack.Python.{join, strip, rstrip, take, count-take-le, count-rstrip-le}
use qontinui_stack.Relay.Types.{Page}
use qontinui_stack.Relay.Render.{
  clip, closing_line, assemble, asks_in, withhold, render, title_for, lines_for, title_max,
}

pub count-clip-le : (text : String) (limit : ℕ) → 0 < limit → count (clip text limit) ≤ limit
unfolding clip
count-clip-le text limit h = ground (
  arith,
  length-append (rstrip (take (limit - 1) (strip text))) "…",
  count-rstrip-le (take (limit - 1) (strip text)),
  count-take-le (limit - 1) (strip text),
)

-- What a page that is sent looks like: both bounds, and the closing line at the end of the body.
pub record IsFitting (title body : String) : Type 0 where
  pub title_fits : count title ≤ 250
  pub body_fits : count body ≤ 1024
  pub head : String
  pub closes : body ≡ append head (append "\n" closing_line)

assemble-IsFitting :
    (page : Page) (what : String) → IsFitting (assemble page what).0 (assemble page what).1
unfolding assemble
assemble-IsFitting page what =
    let head = clip (join "\n" (lines_for page what)) 997 in
    record {
      title_fits = count-clip-le (title_for page) title_max (omega arith);
      body_fits = omega (
        arith,
        length-append head "\nNo action needed from you.",
        count-clip-le (join "\n" (lines_for page what)) 997 (omega arith),
      );
      head = head;
      closes = refl;
    }

-- Every rendered page fits: the title in 250 characters, the body in 1024, and the body ends with
-- the closing line, also where source text was withheld.
pub render-IsFitting :
    (word_code : ℕ → Bool) (page : Page)
    → IsFitting (render word_code page).title (render word_code page).body
unfolding render
render-IsFitting word_code page = elim (Bool-cases (asks_in word_code (assemble page page.what))) [
  | inl e ↦ rw e (assemble-IsFitting (withhold page) (withhold page).what)
  | inr e ↦ rw e (assemble-IsFitting page page.what)
]

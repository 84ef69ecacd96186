-- ===== src/Relay/Render/Asking.antt =====
-- What `render` withholds, and what it says of a page that asks (aws/lambdas/operator_pager_relay/handler.py).
use qontinui_stack.Prelude.{
  ℕ, String, ◌≡◌, Bool, true, false, [], arith, sym, ◌==◌, Bool-cases, inl, inr,
}
use qontinui_stack.Relay.Types.{Page}
use Prim.Native.String.{◌++◌ as append}
use qontinui_stack.Relay.Render.{
  contains_asking_words, asks_in, assemble, withhold, render, title_for, lines_for,
}

-- Two pages that agree in all that `render` does not withhold.
pub record SameKept (p q : Page) : Type 0 where
  pub condition : p.condition ≡ q.condition
  pub kind : p.kind ≡ q.kind
  pub source : p.source ≡ q.source
  pub conditions : p.conditions ≡ q.conditions
  pub remediation : (p.remediation == "") ≡ (q.remediation == "")
  pub agents : (p.agents == "") ≡ (q.agents == "")

module _ (word_code : ℕ → Bool) where
  -- A page says that it asks exactly when its title and body, as sent, contain an asking pattern.
  asks-render :
      (page : Page)
      → (render word_code page).asks
        ≡ asks_in word_code ((render word_code page).title, (render word_code page).body)
  unfolding render
  asks-render page = elim (Bool-cases (asks_in word_code (assemble page page.what))) [
    | inl e ↦ rw e
    | inr e ↦ rw e (sym e)
  ]

  asks_in-false :
      (title body : String)
      → asks_in word_code (title, body) ≡ false
      → contains_asking_words word_code (append title (append "\n" body)) ≡ []
  unfolding asks_in
  asks_in-false title body h = ground arith

  pub render-asks_not :
      (page : Page)
      → (render word_code page).asks ≡ false
      → contains_asking_words word_code
          (append (render word_code page).title (append "\n" (render word_code page).body))
        ≡ []
  render-asks_not page h = asks_in-false _ _ (rw asks-render at h)

  withhold-same :
      (p q : Page)
      → SameKept p q
      → assemble (withhold p) (withhold p).what ≡ assemble (withhold q) (withhold q).what
  unfolding assemble withhold title_for lines_for
  withhold-same p q s = cc (s.condition, s.kind, s.source, s.conditions, s.remediation, s.agents)

  -- Where source text is withheld, the page that is sent does not depend on it: pages that agree in
  -- condition, kind, source, conditions, and in whether a remediation and agents are named, are
  -- rendered alike, whatever their other texts say.
  pub render-withheld_same :
      (p q : Page)
      → SameKept p q
      → (render word_code p).source_text_withheld ≡ true
      → (render word_code q).source_text_withheld ≡ true
      → render word_code p ≡ render word_code q
  unfolding render
  render-withheld_same p q s hp hq = ground (arith, withhold-same p q s)

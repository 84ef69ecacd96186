-- ===== src/Autolink/Gate.antt =====
-- Who may sign up through aws/lambdas/cognito_presignup_autolink/handler.py, and where a federated
-- user name splits.
use Prim.Native.Char.{Char, code}
use Prim.Native.String.{[] as nil, ◌∷◌ as cons, ◌++◌ as append}
use text.Mathlib.TextLemmas.{nil-append, cons-append}
use qontinui_stack.Prelude.{
  ℕ, String, ◌≡◌, refl, ap, ◌↔◌, ◌∙◌, Bool, true, false, ◌||◌, Option, none, some, [], inl, inr,
  nat_eq, Bool-cases, arith,
}
use qontinui_stack.Prelude.Assoc.{lookup}
use qontinui_stack.Autolink.{
  Event, User, Cloud, Answer, not_invited, missing_pool, cognito_error, raised, returned,
  before_underscore, after_underscore, has_underscore, is_admin, is_external, on_match, on_email,
  on_pool, federated, admits, handler,
}

-- Whether an answer is the refusal of the gate.
abbrev pub is_refusal : Answer → Bool
is_refusal (returned event) = false
is_refusal (raised not_invited) = true
is_refusal (raised missing_pool) = false
is_refusal (raised cognito_error) = false

module _ (cloud : Cloud) (event : Event) where
  on_match-admits :
      (pool provider : String) (m : Option (Option User))
      → is_refusal (on_match cloud event pool provider m).0 ≡ false
  on_match-admits pool provider none = refl
  on_match-admits pool provider (some none) = refl
  on_match-admits pool provider (some (some user)) = ground arith

  on_email-admits :
      (pool : String) (m : Option String) → is_refusal (on_email cloud event pool m).0 ≡ false
  on_email-admits pool none = refl
  on_email-admits pool (some email) = grind (arith, on_match-admits)

  on_pool-admits : (p : Option String) → is_refusal (on_pool cloud event p).0 ≡ false
  on_pool-admits none = refl
  on_pool-admits (some pool) = on_email-admits pool _

  federated-admits : is_refusal (federated cloud event).0 ≡ false
  federated-admits = elim (Bool-cases (is_external event)) [
    | inl e ↦ rw e (on_pool-admits cloud.pool)
    | inr e ↦ rw e
  ]

  -- The handler refuses an event exactly when it is not the administrator's own creation of a user
  -- and the gate does not admit its email; it then asks for no link.
  pub handler-refuses :
      ((is_refusal (handler cloud event).0 ≡ true)
        ↔ (is_admin cloud event || admits cloud (lookup "email" event.attributes) ≡ false))
      × (is_refusal (handler cloud event).0 ≡ true → (handler cloud event).1 ≡ [])
  unfolding handler
  handler-refuses = ground (arith, federated-admits)

nat_eq→eq : (a b : ℕ) → nat_eq a b ≡ true → a ≡ b
nat_eq→eq a b h = ground arith

-- A user name with an underscore is the provider, one character with the code of the underscore, and
-- the subject; the provider has no underscore.
pub underscore-splits :
    (s : String)
    → has_underscore s ≡ true
    → (has_underscore (before_underscore s) ≡ false)
      × ((c : Char) × (code c ≡ b'_')
          × (append (before_underscore s) (cons c (after_underscore s)) ≡ s))
unfolding before_underscore after_underscore has_underscore
underscore-splits nil h = ground arith
underscore-splits (cons c s) h = elim (Bool-cases (nat_eq (code c) b'_')) [
  | inl e ↦ rw e (refl, (c, nat_eq→eq _ _ e, nil-append (cons c s)))
  | inr e ↦
      let (none_before, (d, is_underscore, whole)) = underscore-splits s (ground arith) in
      rw (e, e) (none_before, (d, is_underscore, cons-append c _ _ ∙ ap (cons c) whole))
]

-- ===== src/Follower/Effects/Triples.antt =====
-- What an action of the follower makes of a world, whether it returns or raises.
use qontinui_stack.Prelude.{
  String, ◌≡◌, refl, Bool, true, false, Option, none, some, ◌∷◌, if◌then◌else◌,
}
use qontinui_stack.Follower.Types.{Error, Result, ok, err}
use qontinui_stack.Follower.Effects.{
  Act, World, Env, M, continue, ◌>>=◌, pure, raise, query, gets, note, outcome, execute,
}

-- After a return `Q` holds of the value and the world, after a raise `E` holds of the world.
abbrev pub Post : {A : Type 0} → (A → World → Type 0) → (World → Type 0) → Result A × World → Type 0
Post Q E (ok a, w) = Q a w
Post Q E (err e, w) = E w

pub record Triple {A : Type 0} (P : World → Type 0) (m : M A) (Q : A → World → Type 0)
    (E : World → Type 0) : Type 0 where
  pub at : (w : World) → P w → Post Q E (m w)

continue-Post :
    {A B : Type 0} (Q : A → World → Type 0) (R : B → World → Type 0) (E : World → Type 0)
    (f : A → M B)
    → ((a : A) → Triple (Q a) (f a) R E)
    → (r : Result A) (w : World) → Post Q E (r, w)
    → Post R E (continue r f w)
continue-Post Q R E f k (ok a) w h = (k a).at w h
continue-Post Q R E f k (err e) w h = h

pub bind :
    {A B : Type 0} {P : World → Type 0} (Q : A → World → Type 0) {R : B → World → Type 0}
    {E : World → Type 0} {m : M A} {f : A → M B}
    → Triple P m Q E
    → ((a : A) → Triple (Q a) (f a) R E)
    → Triple P (m >>= f) R E
bind Q {R} {E} {m} {f} h k = record {
  at = λ w p. let (r, w') = m w in continue-Post Q R E f k r w' (h.at w p);
}

Post-query :
    {A : Type 0} (P E : World → Type 0) (r : Result A) (w : World)
    → P w
    → E w
    → Post (λ a. P) E (r, w)
Post-query P E (ok a) w p e = p
Post-query P E (err x) w p e = e

-- A query changes nothing.
pub of_query :
    {A : Type 0} {P E : World → Type 0} (f : World → Result A)
    → ((w : World) → P w → E w)
    → Triple P (query f) (λ a. P) E
of_query {P} {E} f pe = record { at = λ w p. Post-query P E (f w) w p (pe w p) }

Post-outcome :
    (Q E : World → Type 0) (o : Option String) (act : Act) (effect : World → World) (w : World)
    → Q (record (effect w) { trace = act ∷ w.trace })
    → E w
    → Post (λ u. Q) E (outcome o act effect w)
Post-outcome Q E none act effect w q e = q
Post-outcome Q E (some label) act effect w q e = e

-- A statement takes effect, or fails and changes nothing.
pub of_execute :
    {P Q E : World → Type 0} (env : Env) (act : Act) (effect : World → World)
    → ((w : World) → P w → Q (record (effect w) { trace = act ∷ w.trace }))
    → ((w : World) → P w → E w)
    → Triple P (execute env act effect) (λ u. Q) E
unfolding execute
of_execute {Q} {E} env act effect pq pe = record {
  at = λ w p. Post-outcome Q E (env.fault act w) act effect w (pq w p) (pe w p);
}

pub of_pure :
    {A : Type 0} {P E : World → Type 0} (Q : A → World → Type 0) (a : A)
    → ((w : World) → P w → Q a w)
    → Triple P (pure a) Q E
of_pure Q a pq = record { at = pq }

pub of_raise :
    {A : Type 0} {P E : World → Type 0} {Q : A → World → Type 0} (e : Error)
    → ((w : World) → P w → E w)
    → Triple P (raise {A = A} e) Q E
of_raise e pe = record { at = pe }

pub of_gets :
    {A : Type 0} {P E : World → Type 0} (f : World → A)
    → Triple P (gets f) (λ a w. P w × (a ≡ f w)) E
of_gets f = record { at = λ w p. (p, refl) }

pub of_note :
    {P Q E : World → Type 0} (act : Act)
    → ((w : World) → P w → Q (record w { trace = act ∷ w.trace }))
    → Triple P (note act) (λ u. Q) E
of_note act pq = record { at = pq }

pub of_read : {A : Type 0} {P E : World → Type 0} (f : World → A) → Triple P (gets f) (λ a. P) E
of_read f = record { at = λ w p. p }

pub of_if :
    {A : Type 0} {P E : World → Type 0} {Q : A → World → Type 0} (b : Bool) {m n : M A}
    → Triple P m Q E
    → Triple P n Q E
    → Triple P (if b then m else n) Q E
of_if true h k = h
of_if false h k = k

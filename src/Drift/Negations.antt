-- ===== src/Drift/Negations.antt =====
-- scripts/terraform-plan-drift.py: the changes that are reported as active negations.
use qontinui_stack.Prelude.{
  is_nil, ◌≤◌, String, ◌≡◌, ◌≢◌, refl, subst, ap, ◌∙◌, Bool, true, false, not, ◌&&◌, some, List, [],
  ◌∷◌, ◌++◌, ◌⊎◌, inl, inr, arith, elem, ltb, ◌==◌, eq_iff, Bool-cases, Option-cases, List-cases,
  ltb→lt, if◌then◌else◌,
}
use qontinui_stack.Python.Json.{Json}
use qontinui_stack.Python.Lists.{minus, same_texts}
use qontinui_stack.Python.Sets.{elem-cons}
use qontinui_stack.Drift.Tables.{serving_resource_types, negating_attributes}
use qontinui_stack.Drift.{
  Class, is_ok, is_unknown, benign_add, in_place_change, active_negation, severity, negation_of,
  hits_of, classify_update, classify_delete, classify_change, Change, Record, changed_attributes,
  record_of, classify_plan, is_clean, worst, worst_from,
}

elem-minus :
    (xs : List String) (y x : String) → elem x (minus xs (y ∷ [])) ≡ elem x xs && not (x == y)
unfolding minus
elem-minus [] y x = refl
elem-minus (z ∷ xs) y x = ground (arith, elem-minus xs y x, eq_iff x z, eq_iff z y)

-- A list that has a text is not empty, and is not a list of one other text.
is_nil-elem : (xs : List String) (x : String) → elem x xs ≡ true → is_nil xs ≡ false
is_nil-elem [] x h = cc
is_nil-elem (y ∷ xs) x h = refl

same_texts-elem :
    (xs : List String) (x y : String)
    → elem x xs ≡ true
    → (x == y) ≡ false
    → same_texts xs (y ∷ []) ≡ false
unfolding same_texts
same_texts-elem [] x y h n = cc
same_texts-elem (z ∷ []) x y h n = ground (arith, h, n, eq_iff x z, eq_iff z y)
same_texts-elem (z ∷ w ∷ xs) x y h n = ground (arith)

deleted :
    (resource_type : String) (creates : Bool)
    → elem resource_type serving_resource_types ≡ true
    → (classify_delete resource_type creates).class ≡ active_negation
unfolding classify_delete
deleted resource_type creates h = simp h refl

hits_of-nonempty :
    (resource_type : String) (attrs : List String) (attr reason : String)
    → elem attr attrs ≡ true
    → negation_of negating_attributes (resource_type, attr) ≡ some reason
    → hits_of resource_type attrs ≢ []
unfolding hits_of
hits_of-nonempty resource_type [] attr reason m n h = cc
hits_of-nonempty resource_type (a ∷ attrs) attr reason m n h =
    elim (Option-cases (negation_of negating_attributes (resource_type, a))) [
      | inl e ↦ elim (elem-cons attr a attrs m) [
        | inl q ↦
            cc
              (subst (λ z. negation_of negating_attributes (resource_type, z) ≡ some reason) q n, e)
        | inr later ↦
            hits_of-nonempty resource_type attrs attr reason later n (rw (e, hits_of) at h)
      ]
      | inr (r, e) ↦ cc (rw (e, hits_of) at h)
    ]

updated :
    (resource_type : String) (attrs : List String) (attr reason : String)
    → elem attr attrs ≡ true
    → negation_of negating_attributes (resource_type, attr) ≡ some reason
    → (classify_update resource_type attrs (hits_of resource_type attrs)).class ≡ active_negation
unfolding classify_update
updated resource_type attrs attr reason m n = elim (List-cases (hits_of resource_type attrs)) [
  | inl q ↦ absurd (hits_of-nonempty resource_type attrs attr reason m n q)
  | inr (hit, rest, q) ↦ rw q refl
]

module _ (repr : List String → String) (equal : Json → Json → Bool) where
  -- A live resource that is destroyed, or an update of an attribute whose change negates.
  abbrev pub Negates : Change → Type 0
  Negates change =
      (elem "delete" change.actions ≡ true) × (elem change.type serving_resource_types ≡ true)
      ⊎ (elem "delete" change.actions ≡ false)
        × (elem "update" change.actions ≡ true)
        × ((attr reason : String) × (elem attr (changed_attributes equal change) ≡ true)
            × (negation_of negating_attributes (change.type, attr) ≡ some reason))

  -- What is left of the actions besides no-op.
  abbrev acts : Change → List String
  acts change = minus change.actions ("no-op" ∷ [])

  kept_action :
      (change : Change) (action : String)
      → (action == "no-op") ≡ false
      → elem action change.actions ≡ true
      → elem action (acts change) ≡ true
  kept_action change action n h = elem-minus change.actions "no-op" action ∙ ground (arith, n, h)

  record_of-Negates :
      (change : Change) → Negates change → (record_of repr equal change).class ≡ active_negation
  unfolding record_of classify_change
  record_of-Negates change (inl (del, serving)) =
      let kept = kept_action change "delete" refl del in
      simp
        (
          is_nil-elem (acts change) "delete" kept,
          same_texts-elem change.actions "delete" "no-op" del refl,
          same_texts-elem change.actions "delete" "read" del refl,
          kept,
        )
        (deleted change.type (elem "create" (acts change)) serving)
  record_of-Negates change (inr (del, update, (attr, reason, changed, negating))) =
      let kept = kept_action change "update" refl update in
      simp
        (
          is_nil-elem (acts change) "update" kept,
          same_texts-elem change.actions "update" "no-op" update refl,
          same_texts-elem change.actions "update" "read" update refl,
          elem-minus change.actions "no-op" "delete",
          del,
          same_texts-elem (acts change) "update" "create" kept refl,
          kept,
        )
        (updated change.type (changed_attributes equal change) attr reason changed negating)

worst_from-le : (best : Class) (rs : List Record) → severity best ≤ severity (worst_from best rs)
unfolding severity
worst_from-le best [] = omega arith
worst_from-le best (r ∷ rs) = elim (Bool-cases (ltb (severity best) (severity r.class))) [
  | inl e ↦ let ih = worst_from-le r.class rs in simp e (omega (arith, ih, ltb→lt _ _ e))
  | inr e ↦ simp e (worst_from-le best rs)
]

at_most : (class : Class) → severity class ≤ 4
unfolding severity
at_most is_ok = omega arith
at_most is_unknown = omega arith
at_most benign_add = omega arith
at_most in_place_change = omega arith
at_most active_negation = omega arith

severest : (class : Class) → 4 ≤ severity class → class ≡ active_negation
unfolding severity
severest is_ok h = absurd (omega (arith, h))
severest is_unknown h = absurd (omega (arith, h))
severest benign_add h = absurd (omega (arith, h))
severest in_place_change h = absurd (omega (arith, h))
severest active_negation h = refl

-- A record is at most as severe as the fold that meets it.
worst_from-head :
    (best : Class) (r : Record) (rs : List Record)
    → severity r.class ≤ severity (worst_from best (r ∷ rs))
unfolding severity
worst_from-head best r rs = elim (Bool-cases (ltb (severity best) (severity r.class))) [
  | inl e ↦ simp e (worst_from-le r.class rs)
  | inr e ↦ let ih = worst_from-le best rs in simp e (ground (arith, ih, e))
]

or_least :
    (class : Class) → (if ltb (severity is_ok) (severity class) then class else is_ok) ≡ class
unfolding severity
or_least is_ok = refl
or_least is_unknown = refl
or_least benign_add = refl
or_least in_place_change = refl
or_least active_negation = refl

worst-worst_from : (rs : List Record) → worst rs ≡ worst_from is_ok rs
unfolding worst
worst-worst_from [] = refl
worst-worst_from (r ∷ rs) = rw (or_least r.class) refl

module _ (repr : List String → String) (equal : Json → Json → Bool) where
  module _ (change : Change) (after : List Change) (negates : Negates repr equal change) where
    reported :
        (earlier : List Change) (best : Class)
        → 4 ≤ severity (worst_from best (classify_plan repr equal (earlier ++ change ∷ after)))
    unfolding classify_plan severity
    reported [] best =
        let r = record_of repr equal change in
        let negation = record_of-Negates repr equal change negates in
        let later = classify_plan repr equal after in
        let kept = ap is_clean negation in
        let high = worst_from-head best r later in
        rw kept (subst (λ c. severity c ≤ severity (worst_from best (r ∷ later))) negation high)
    reported (c ∷ cs) best = elim (Bool-cases (is_clean (record_of repr equal c).class)) [
      | inl e ↦ rw e (reported cs best)
      | inr e ↦ rw e (reported cs _)
    ]

    -- A plan with a change that negates is reported as an active negation, whatever else it changes.
    pub worst-Negates :
        (earlier : List Change)
        → worst (classify_plan repr equal (earlier ++ change ∷ after)) ≡ active_negation
    worst-Negates earlier =
        let rs = classify_plan repr equal (earlier ++ change ∷ after) in
        worst-worst_from rs ∙ severest _ (reported earlier is_ok)

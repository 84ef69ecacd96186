-- ===== src/Plans/Visible/Flood.antt =====
-- scripts/plan-graph.py: what each of the two loops of `_filter_visible` marks.
use qontinui_stack.Prelude.{
  ℕ, zero, suc, ◌+◌, ◌≤◌, String, ◌≡◌, refl, subst, true, false, not, ◌&&◌, ◌||◌, some, List, [],
  ◌∷◌, ◌⊎◌, ◌↔◌, inl, inr, arith, elem, length, eq_iff, Bool-cases, All,
}
use qontinui_stack.Python.Sets.{elem-cons, elem-here, outside, outside-cons-lt}
use qontinui_stack.Plans.Visible.{Spread, mark_all, spread}

-- The texts of the queue, and those that they lead to by texts outside the set `old`.
pub data Flood (next : String → List String) (old queue : List String) : String → Type 0 where
  seed : {a : String} → elem a queue ≡ true → Flood next old queue a
  grow :
      {a b : String}
      → Flood next old queue a
      → elem b (next a) ≡ true
      → elem b old ≡ false
      → Flood next old queue b

visible-mark_all :
    (xs : List String) (s : Spread) (y : String)
    → elem y (mark_all xs s).visible ≡ elem y s.visible || elem y xs
unfolding mark_all
visible-mark_all [] s y = ground arith
visible-mark_all (x ∷ xs) s y = elim (Bool-cases (elem x s.visible)) [
  | inl e ↦ ground (arith, visible-mark_all xs s y, eq_iff y x)
  | inr e ↦
      ground
        (arith, visible-mark_all xs (record { visible = x ∷ s.visible; queue = x ∷ s.queue }) y)
]

queue-mark_all :
    (xs : List String) (s : Spread) (y : String)
    → elem y (mark_all xs s).queue ≡ elem y s.queue || elem y xs && not (elem y s.visible)
unfolding mark_all
queue-mark_all [] s y = ground arith
queue-mark_all (x ∷ xs) s y = elim (Bool-cases (elem x s.visible)) [
  | inl e ↦ ground (arith, queue-mark_all xs s y, eq_iff y x)
  | inr e ↦ ground (
    arith,
    queue-mark_all xs (record { visible = x ∷ s.visible; queue = x ∷ s.queue }) y,
    eq_iff y x,
  )
]

abbrev work : List String → Spread → ℕ
work all_stems s = outside s.visible all_stems + length s.queue

work-mark_all :
    (all_stems xs : List String) (s : Spread)
    → All (λ x. elem x all_stems ≡ true) xs
    → work all_stems (mark_all xs s) ≤ work all_stems s
unfolding mark_all
work-mark_all all_stems [] s h = omega arith
work-mark_all all_stems (x ∷ xs) s h = elim (Bool-cases (elem x s.visible)) [
  | inl e ↦ ground (arith, work-mark_all all_stems xs s h.1)
  | inr e ↦ ground (
    arith,
    work-mark_all all_stems xs (record { visible = x ∷ s.visible; queue = x ∷ s.queue }) h.1,
    outside-cons-lt s.visible x all_stems e h.0,
  )
]

module _ (next : String → List String) (all_stems : List String)
    (inside : (a : String) → All (λ x. elem x all_stems ≡ true) (next a)) where
  pub spread-ends-from :
      (fuel : ℕ) (visible queue : List String)
      → outside visible all_stems + length queue ≤ fuel
      → (marked : List String) × (spread next fuel (record { visible = visible; queue = queue })
          ≡ some marked)
  unfolding spread
  spread-ends-from zero visible [] h = (visible, refl)
  spread-ends-from (suc fuel) visible [] h = (visible, refl)
  spread-ends-from zero visible (cur ∷ rest) h = absurd (omega arith)
  spread-ends-from (suc fuel) visible (cur ∷ rest) h =
      let s = mark_all (next cur) (record { visible = visible; queue = rest }) in
      spread-ends-from fuel s.visible s.queue (
        omega (
          arith,
          work-mark_all all_stems (next cur) (record { visible = visible; queue = rest })
              (inside cur),
        ))

module _ (next : String → List String) (old start : List String) where
  abbrev Flooded : String → Type 0
  Flooded = Flood next old start

  record Inv (visible queue : List String) : Type 0 where
    kept : (x : String) → elem x old ≡ true → elem x visible ≡ true
    sound : (x : String) → elem x visible ≡ true → (elem x old ≡ true) ⊎ Flooded x
    queued : (x : String) → elem x queue ≡ true → Flooded x
    closed :
        (x b : String)
        → Flooded x
        → elem x visible ≡ true
        → elem b (next x) ≡ true
        → (elem x queue ≡ true) ⊎ (elem b visible ≡ true)

  Inv-start : Inv old start
  Inv-start = record {
    kept = λ x m. m;
    sound = λ x m. inl m;
    queued = λ x m. seed m;
    closed = λ x b f m e. elim f [ seed q ↦ inl q | grow g n out ↦ cc ];
  }

  Inv-mark_all :
      (visible : List String) (cur : String) (rest : List String)
      → Inv visible (cur ∷ rest)
      → let s = mark_all (next cur) (record { visible = visible; queue = rest }) in
        Inv s.visible s.queue
  Inv-mark_all visible cur rest h = record {
    kept = λ x m. ground (arith, seen x, h.kept x m);
    sound = λ x m. elim (Bool-cases (elem x visible)) [
      | inl e ↦ h.sound x e
      | inr e ↦ inr (fresh x (ground (arith, seen x)) e)
    ];
    queued = λ x m. elim (Bool-cases (elem x rest)) [
      | inl e ↦ h.queued x (ground (arith, e))
      | inr e ↦ fresh x (ground (arith, waits x)) (ground (arith, waits x))
    ];
    closed = λ x b f m e. elim (Bool-cases (elem x visible)) [
      | inl v ↦ elim (h.closed x b f v e) [
        | inl w ↦ elim (elem-cons x cur rest w) [
          | inl q ↦ inr (ground (arith, seen b, subst (λ z. elem b (next z) ≡ true) q e))
          | inr later ↦ inl (ground (arith, waits x, later))
        ]
        | inr w ↦ inr (ground (arith, seen b, w))
      ]
      | inr v ↦ inl (ground (arith, seen x, waits x))
    ];
  }
    where
      seen :
          (y : String)
          → elem y (mark_all (next cur) (record { visible = visible; queue = rest })).visible
            ≡ elem y visible || elem y (next cur)
      seen = visible-mark_all (next cur) (record { visible = visible; queue = rest })

      waits :
          (y : String)
          → elem y (mark_all (next cur) (record { visible = visible; queue = rest })).queue
            ≡ elem y rest || elem y (next cur) && not (elem y visible)
      waits = queue-mark_all (next cur) (record { visible = visible; queue = rest })

      fresh : (x : String) → elem x (next cur) ≡ true → elem x visible ≡ false → Flooded x
      fresh x n out =
          grow (h.queued cur (elem-here cur rest)) n
            (elim (Bool-cases (elem x old)) [ inl e ↦ cc (h.kept x e) | inr e ↦ e ])

  spread-Inv :
      (fuel : ℕ) (visible queue marked : List String)
      → Inv visible queue
      → spread next fuel (record { visible = visible; queue = queue }) ≡ some marked
      → Inv marked []
  unfolding spread
  spread-Inv zero visible [] marked h e = ground (arith, h)
  spread-Inv (suc fuel) visible [] marked h e = ground (arith, h)
  spread-Inv zero visible (cur ∷ rest) marked h e = cc
  spread-Inv (suc fuel) visible (cur ∷ rest) marked h e =
      let s = mark_all (next cur) (record { visible = visible; queue = rest }) in
      spread-Inv fuel s.visible s.queue marked (Inv-mark_all visible cur rest h) e

  Flooded-marked :
      (marked : List String)
      → Inv marked []
      → ((x : String) → elem x start ≡ true → elem x old ≡ true)
      → {x : String} → Flooded x
      → elem x marked ≡ true
  Flooded-marked marked h within (seed {a} q) = h.kept a (within a q)
  Flooded-marked marked h within (grow {a} {b} f n out) =
      elim (h.closed a b f (Flooded-marked marked h within f) n) [ inl w ↦ cc | inr m ↦ m ]

  -- The loop marks what was marked and what the queue leads to by texts that were not.
  pub spread-marks :
      (fuel : ℕ) (marked : List String)
      → ((x : String) → elem x start ≡ true → elem x old ≡ true)
      → spread next fuel (record { visible = old; queue = start }) ≡ some marked
      → (x : String) → (elem x marked ≡ true) ↔ ((elem x old ≡ true) ⊎ Flooded x)
  spread-marks fuel marked within e x =
      let h = spread-Inv fuel old start marked Inv-start e in
      (h.sound x, λ k. elim k [ inl m ↦ h.kept x m | inr f ↦ Flooded-marked marked h within f ])

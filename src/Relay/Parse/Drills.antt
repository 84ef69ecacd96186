-- ===== src/Relay/Parse/Drills.antt =====
-- What a drill may silence (aws/lambdas/operator_pager_relay/handler.py): the messages that become a
-- page of kind drill, or the suppressed drop at the end of one.
use qontinui_stack.Prelude.{
  String, ◌≡◌, refl, sym, subst, ap, ◌∙◌, true, false, ◌||◌, ◌==◌, Option, none, some, List, [],
  ◌∷◌, any, elem, arith, eq_iff, eq_refl, Bool-cases, Option-cases, ◌⊎◌, inl, inr, ◌↔◌,
}
use qontinui_stack.Python.Json.{
  Json, null, bool, num, str, arr, obj, Fields, get, get_or, truthy, member, as_object, as_text,
  Runtime, str_of,
}
use qontinui_stack.Relay.Types.{conditions, Parsed, page, drop}
use qontinui_stack.Relay.Reasons.{ends_with}
use qontinui_stack.Relay.Drill.{Item, triggering_children, drill_from_history}
use qontinui_stack.Relay.Parse.Alarm.{
  History, Decision, is_drill_child, state_kind, change_time, read_history, detect, detect_named,
  detect_unnamed, conclude, alarm_page, parse_entry, parse_alarm,
}

-- The entry that the alarm map has for a notification, and its condition.
pub record IsMapped (py : Runtime) (doc alarm_map entry : Fields) (condition : String)
    : Type 0 where
  pub mapped : as_object (get alarm_map (str_of py (get_or doc "AlarmName" (str "")))) ≡ some entry
  pub in_five : member (get entry "condition") conditions ≡ some condition

-- A child alarm is the drill child of the map, or is named like one.
abbrev pub IsDrillName : Json → String → Type 0
IsDrillName drill_child c = (as_text drill_child ≡ some c) ⊎ (ends_with "-drill" c ≡ true)

is_drill_child_lem :
    (d : Option String) (c : String)
    → ((elim d [ none ↦ false | some x ↦ c == x ]) || ends_with "-drill" c ≡ true)
      ↔ ((d ≡ some c) ⊎ (ends_with "-drill" c ≡ true))
is_drill_child_lem none c = (λ h. inr h, λ h. elim h [ inl e ↦ cc | inr e ↦ e ])
is_drill_child_lem (some x) c = elim (Bool-cases (c == x)) [
  | inl e ↦ (λ h. inl (ap some (sym (ground (arith, eq_iff c x, e)))), λ h. ground (arith, e))
  | inr e ↦ (
    λ h. inr (ground (arith, e, h)),
    λ h. elim h [ inl q ↦ ground (arith, eq_iff c x, q) | inr q ↦ ground (arith, q) ],
  )
]

-- Some triggering child is a drill's.
abbrev pub HasDrillName : Json → List String → Type 0
HasDrillName drill_child children =
    (c : String) × (elem c children ≡ true) × IsDrillName drill_child c

any-HasDrillName :
    (drill_child : Json) (children : List String)
    → (any (is_drill_child drill_child) children ≡ true) ↔ HasDrillName drill_child children
any-HasDrillName drill_child [] = (λ h. cc, λ (c, m, _). cc)
any-HasDrillName drill_child (x ∷ xs) =
    let here = is_drill_child_lem (as_text drill_child) x in
    let later = any-HasDrillName drill_child xs in
    (
      λ h. elim (Bool-cases (is_drill_child drill_child x)) [
        | inl e ↦ (x, ground (arith, eq_refl x), here.0 e)
        | inr e ↦
            let (c, m, named) = later.0 (ground (arith, e, h)) in (c, ground (arith, m), named)
      ],
      λ (c, m, named). elim (Bool-cases (c == x)) [
        | inl e ↦
            let same : c ≡ x = ground (arith, eq_iff c x, e) in
            ground (arith, here.1 (subst (IsDrillName drill_child) same named))
        | inr e ↦ ground (arith, later.1 (c, ground (arith, m, e), named))
      ],
    )

module _ (py : Runtime) (doc : Fields) where
  -- What makes a composite with this drill child a drill: the alarm map names a drill child, and some
  -- triggering child is a drill's, or no child is named and the history of the drill child, which can
  -- be read, says so.
  abbrev pub IsDrill : Json → Option History → String → Type 0
  IsDrill drill_child history state =
      (truthy drill_child ≡ true)
      × (HasDrillName drill_child (triggering_children py doc)
          ⊎ ((triggering_children py doc ≡ [])
              × ((items : List Item) × (read_history py doc drill_child history ≡ some items)
                  × ((drill_from_history py (some items) (change_time py doc) state).0 ≡ true))))

  named-IsDrill :
      (drill_child : Json) (history : Option (List Item)) (state : String) (children : List String)
      → ((detect_named py doc drill_child history children state).drill ≡ true) ↔ (
          HasDrillName drill_child children
          ⊎ ((children ≡ [])
              × ((items : List Item) × (history ≡ some items)
                  × ((drill_from_history py (some items) (change_time py doc) state).0 ≡ true))))
  unfolding detect_named detect_unnamed
  named-IsDrill drill_child none state [] =
      (λ h. cc, λ h. elim h [ inl (c, m, _) ↦ cc | inr (_, (items, e, _)) ↦ cc ])
  named-IsDrill drill_child (some items) state [] = (
    λ h. inr (refl, (items, refl, h)),
    λ h. elim h [
      | inl (c, m, _) ↦ cc
      | inr (_, (seen, e, h)) ↦
          let same : items ≡ seen = ground (arith, e) in
          subst (λ xs. (drill_from_history py (some xs) (change_time py doc) state).0 ≡ true)
            (sym same) h
    ],
  )
  named-IsDrill drill_child history state (c ∷ children) = (
    λ h. inl ((any-HasDrillName drill_child (c ∷ children)).0 h),
    λ h. elim h [
      | inl named ↦ (any-HasDrillName drill_child (c ∷ children)).1 named
      | inr (e, _) ↦ cc
    ],
  )

  detect-IsDrill :
      (drill_child : Json) (history : Option History) (state : String)
      → ((detect py doc drill_child history state).drill ≡ true) ↔ IsDrill drill_child history state
  unfolding detect
  detect-IsDrill drill_child history state =
      let named =
        named-IsDrill drill_child (read_history py doc drill_child history) state
          (triggering_children py doc) in
      elim (Bool-cases (truthy drill_child)) [
        | inl t ↦ simp t (λ h. (refl, named.0 h), λ h. named.1 h.1)
        | inr t ↦ simp t (λ h. cc, λ h. cc)
      ]

-- A page of kind drill, or a drop that is suppressed.
abbrev pub IsSilenced : Parsed → Type 0
IsSilenced (page p) = p.kind ≡ "drill"
IsSilenced (drop d) = d.suppressed ≡ true

-- The states that are paged, with the kind of page.
IsPagedAs : String → String → Type 0
IsPagedAs state kind =
    ((state ≡ "ALARM") × (kind ≡ "page")) ⊎ ((state ≡ "OK") × (kind ≡ "resolved"))

paged_state :
    (v : Json) (kind : String)
    → state_kind v ≡ some kind
    → (state : String) × (v ≡ str state) × IsPagedAs state kind
unfolding IsPagedAs
paged_state (str s) kind e = elim (Bool-cases (s == "ALARM")) [
  | inl a ↦ (s, refl, inl (ground (arith, eq_iff s "ALARM", a), ground (arith, a, e)))
  | inr a ↦ elim (Bool-cases (s == "OK")) [
    | inl b ↦ (s, refl, inr (ground (arith, eq_iff s "OK", b), ground (arith, a, b, e)))
    | inr b ↦ ground (arith, a, b, e)
  ]
]
paged_state null kind e = cc
paged_state (bool b) kind e = cc
paged_state (num n) kind e = cc
paged_state (arr xs) kind e = cc
paged_state (obj xs) kind e = cc

conclude-IsSilenced :
    (py : Runtime) (doc entry : Fields) (name condition state kind : String) (decision : Decision)
    → IsPagedAs state kind
    → IsSilenced (conclude py doc entry name condition state kind decision)
      ↔ (decision.drill ≡ true)
unfolding conclude alarm_page IsPagedAs
conclude-IsSilenced py doc entry name condition state kind decision paged =
    elim (Bool-cases decision.drill) [
      | inl d ↦ elim (Bool-cases (state == "OK")) [
        | inl k ↦ simp (d, k) (λ h. refl, λ h. refl)
        | inr k ↦ simp (d, k) (λ h. refl, λ h. refl)
      ]
      | inr d ↦
          simp d
            (λ h. elim paged [ inl (_, k) ↦ cc (sym k ∙ h) | inr (_, k) ↦ cc (sym k ∙ h) ], λ h. cc)
    ]

module _ (py : Runtime) (doc alarm_map : Fields) (history : Option History) where
  abbrev alarm_name : String
  alarm_name = str_of py (get_or doc "AlarmName" (str ""))

  -- The notification is of a mapped alarm with one of the five conditions, in one of the two states
  -- that are paged, and a drill.
  pub record IsDrillAlarm : Type 0 where
    pub entry : Fields
    pub condition : String
    pub in_map : IsMapped py doc alarm_map entry condition
    pub state : String
    pub in_state : get doc "NewStateValue" ≡ str state
    pub paged : (state ≡ "ALARM") ⊎ (state ≡ "OK")
    pub drill : IsDrill py doc (get entry "drill_child") history state

  abbrev parsed : Parsed
  parsed = parse_alarm py doc alarm_map history

  module _ (entry : Fields) (condition : String)
      (m : IsMapped py doc alarm_map entry condition) where
    parsed-entry : parsed ≡ parse_entry py doc entry alarm_name condition history
    unfolding parse_alarm
    parsed-entry = rw (parse_alarm, m.mapped, m.in_five)

    decided : String → Decision
    decided state = detect py doc (get entry "drill_child") history state

    parsed-conclude :
        (state kind : String)
        → get doc "NewStateValue" ≡ str state
        → IsPagedAs state kind
        → parsed ≡ conclude py doc entry alarm_name condition state kind (decided state)
    unfolding parse_entry str_of decided IsPagedAs
    parsed-conclude state kind e paged = elim paged [
      | inl (s, k) ↦
          let at_alarm = e ∙ ap str s in
          parsed-entry ∙ rw (parse_entry, at_alarm, at_alarm, s, k) refl
      | inr (s, k) ↦
          let at_ok = e ∙ ap str s in parsed-entry ∙ rw (parse_entry, at_ok, at_ok, s, k) refl
    ]

    IsSilenced-mapped :
        (state kind : String)
        → get doc "NewStateValue" ≡ str state
        → IsPagedAs state kind
        → IsSilenced parsed ↔ IsDrill py doc (get entry "drill_child") history state
    unfolding decided
    IsSilenced-mapped state kind e paged =
        let same = parsed-conclude state kind e paged in
        let concluded =
          conclude-IsSilenced py doc entry alarm_name condition state kind (decided state) paged in
        let drills = detect-IsDrill py doc (get entry "drill_child") history state in
        (
          λ h. drills.0 (concluded.0 (subst IsSilenced same h)),
          λ h. subst IsSilenced (sym same) (concluded.1 (drills.1 h)),
        )

    not_paged : state_kind (get doc "NewStateValue") ≡ none → IsSilenced parsed → IsDrillAlarm
    unfolding parse_entry
    not_paged e h =
        let in_entry = subst IsSilenced parsed-entry h in cc (rw (parse_entry, e) at in_entry)

    forward : IsSilenced parsed → IsDrillAlarm
    unfolding IsPagedAs
    forward h = elim (Option-cases (state_kind (get doc "NewStateValue"))) [
      | inl e ↦ not_paged e h
      | inr (kind, e) ↦
          let (state, v, paged) = paged_state (get doc "NewStateValue") kind e in
          record {
            entry = entry;
            condition = condition;
            in_map = m;
            state = state;
            in_state = v;
            paged = elim paged [ inl (s, _) ↦ inl s | inr (s, _) ↦ inr s ];
            drill = (IsSilenced-mapped state kind v paged).0 h;
          }
    ]

  -- A notification is silenced, paged as a drill or dropped at the end of one, exactly where it is of a
  -- mapped alarm with one of the five conditions, in state ALARM or OK, whose map entry names a drill
  -- child, and some triggering child is that one or named like a drill, or no child is named and the
  -- history of the drill child says that a drill is on.
  pub parse_alarm-IsSilenced : IsSilenced (parse_alarm py doc alarm_map history) ↔ IsDrillAlarm
  unfolding parse_alarm IsPagedAs
  parse_alarm-IsSilenced = (
    λ h. elim (Option-cases (as_object (get alarm_map alarm_name))) [
      | inl e ↦ cc (rw (parse_alarm, e) at h)
      | inr (entry, e) ↦ elim (Option-cases (member (get entry "condition") conditions)) [
        | inl c ↦ cc (rw (parse_alarm, e, c) at h)
        | inr (condition, c) ↦ forward entry condition (record { mapped = e; in_five = c }) h
      ]
    ],
    λ h. elim h.paged [
      | inl s ↦
          (IsSilenced-mapped h.entry h.condition h.in_map h.state "page" h.in_state
              (inl (s, refl))).1
            h.drill
      | inr s ↦
          (IsSilenced-mapped h.entry h.condition h.in_map h.state "resolved" h.in_state
              (inr (s, refl))).1
            h.drill
    ],
  )

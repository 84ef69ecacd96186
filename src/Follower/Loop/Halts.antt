-- ===== src/Follower/Loop/Halts.antt =====
-- What becomes of a step that keeps failing, in the loop of local/postgres/lib/qpg/follower.py.
use qontinui_stack.Prelude.{
  ◌<◌, String, ◌≡◌, refl, subst, ap, ◌∙◌, Bool, true, false, none, some, List, [], ◌∷◌, ◌==◌, arith,
  leb, Option-cases, inl, inr,
}
use qontinui_stack.Follower.Types.{
  Detail, in_progress, halted, step_keeps_failing, pg_error, Result, ok, err, no_other,
}
use qontinui_stack.Follower.Effects.{Act, World}
use qontinui_stack.Follower.Halting.{halt_with}
use qontinui_stack.Follower.Halting.Quiet.{was_on}
use qontinui_stack.Follower.Cycle.{cycle}
use qontinui_stack.Follower.Loop.{
  Loop, Round, Config, Polled, failed, still, failing, stuck_in, notify_stuck_step, count_failure,
  on_error, after_cycle, read_and_cycle, read_fault, poll_round, exit_code, rounds,
}

-- A round in which the poll fails in a step: with a database error that is not the publisher's, after
-- which the state says that the step is in progress.
pub record Fails (r : Round) (l : Loop) : Type 0 where
  pub unlocked : r.locked ≡ false
  pub opened : read_fault r ≡ none
  pub label : String
  pub world : World
  pub error : cycle r.env l.world ≡ (err (pg_error label), world)
  pub subscriber : (label == "publisher") ≡ false
  pub detail : Detail
  pub step : world.state ≡ in_progress detail
  pub noticed : r.reads_to_notify ≡ true

notify-kept :
    (reads : Bool) (l : Loop)
    → ((notify_stuck_step reads l).world ≡ l.world)
      × ((notify_stuck_step reads l).failures ≡ l.failures)
unfolding notify_stuck_step
notify-kept reads l = elim (Option-cases (stuck_in reads l.world.state)) [
  | inl e ↦ simp (e, notify_stuck_step) (refl, refl)
  | inr (s, e) ↦ simp (e, notify_stuck_step) (refl, refl)
]

module _ (cfg : Config) where
  -- The loop after the failure is counted.
  abbrev counted : (r : Round) (l : Loop) → Fails r l → Loop
  counted r l h =
      count_failure h.label (notify_stuck_step r.reads_to_notify (record l { world = h.world }))

  -- Statements do not fail and the state can be read when the follower halts.
  abbrev CanHalt : Round → Type 0
  CanHalt r = (r.reads_to_halt ≡ true) × ((act : Act) (v : World) → r.env.fault act v ≡ none)

  -- Each round of a list fails in a step, from where the one before it left the loop, the last one in
  -- this step.
  abbrev pub KeepsFailing : List Round → Detail → Loop → Type 0
  KeepsFailing [] last l = Unit
  KeepsFailing (r ∷ []) last l =
      (h : Fails r l) × (h.detail ≡ last) × CanHalt r × (r.timed_out ≡ false)
  KeepsFailing (r ∷ s ∷ rest) last l =
      Fails r l × (r.timed_out ≡ false) × KeepsFailing (s ∷ rest) last (poll_round cfg r l).1

  -- The follower is halted for a step that keeps failing, which the halt's detail keeps, and the
  -- subscription is not enabled.
  pub record HaltedIn (step : Detail) (l : Loop) : Type 0 where
    pub disabled_by_halt : Bool
    pub state :
        l.world.state
        ≡ halted step_keeps_failing (record {
          in_progress = some step;
          other = no_other;
          kase = none;
          targets = [];
          disabled_by_halt = disabled_by_halt;
        })
    pub subscription : was_on l.world.subscription ≡ false
    pub triggers : l.world.triggers ≡ false

  abbrev halting : Round → Detail → World → Result (Unit {0}) × World
  halting r d w = halt_with r.env step_keeps_failing (failing (in_progress d)) w

  abbrev halted_loop : (r : Round) (l : Loop) → Fails r l → Loop
  halted_loop r l h = record (counted r l h) { world = (halting r h.detail h.world).1 }

  no_exit :
      (r : Round) (p : Polled) (w : World)
      → cfg.once ≡ false
      → cfg.until_idle ≡ false
      → r.timed_out ≡ false
      → exit_code cfg r p w ≡ none
  unfolding exit_code
  no_exit r p w once idle time = ground (arith, once, idle, time)

  round_goes :
      (r : Round) (rest : List Round) (l : Loop)
      → cfg.once ≡ false
      → cfg.until_idle ≡ false
      → r.timed_out ≡ false
      → (p : Polled) (l' : Loop) → poll_round cfg r l ≡ (ok p, l')
      → rounds cfg (r ∷ rest) l ≡ rounds cfg rest l'
  unfolding rounds
  round_goes r rest l once idle time p l' e =
      simp (rounds, ap (λ x. x.0) e, ap (λ x. x.1) e, no_exit r p l'.world once idle time) refl

  -- A round whose poll fails on the publisher.
  pub record IsOutage (r : Round) (l : Loop) : Type 0 where
    pub unlocked : r.locked ≡ false
    pub opened : read_fault r ≡ none
    pub left : World
    pub error : cycle r.env l.world ≡ (err (pg_error "publisher"), left)
    pub in_time : r.timed_out ≡ false

  outage-fails :
      (r : Round) (l : Loop)
      → IsOutage r l
      → l.failures < cfg.max_failures
      → (l' : Loop) × (poll_round cfg r l ≡ (ok failed, l')) × (l'.failures ≡ l.failures)
  unfolding poll_round read_and_cycle after_cycle on_error count_failure
  outage-fails r l o below =
      let noticed = notify_stuck_step r.reads_to_notify (record l { world = o.left }) in
      let (_, same_count) = notify-kept r.reads_to_notify (record l { world = o.left }) in
      let under : leb cfg.max_failures noticed.failures ≡ false =
        ap (leb cfg.max_failures) same_count ∙ ground (arith, below) in
      (noticed, simp (o.unlocked, o.opened, o.error, under) refl, same_count)

  -- Each round of a list fails on the publisher, from where the one before it left the loop.
  abbrev pub Outages : List Round → Loop → Type 0
  Outages [] l = Unit
  Outages (r ∷ rest) l = IsOutage r l × Outages rest (poll_round cfg r l).1

  -- A service whose counter is below the limit survives an outage of the publisher of any length before
  -- the deadline: the loop goes on, and no round of the outage is counted towards the limit.
  pub rounds-outage :
      (rs : List Round) (l : Loop)
      → cfg.once ≡ false
      → cfg.until_idle ≡ false
      → l.failures < cfg.max_failures
      → Outages rs l
      → (l' : Loop) × (rounds cfg rs l ≡ still l') × (l'.failures ≡ l.failures)
  unfolding rounds
  rounds-outage [] l once idle below h = (l, refl, refl)
  rounds-outage (r ∷ rest) l once idle below (o, more) =
      let (m, e, same) = outage-fails r l o below in
      let (l', ends, kept) =
        rounds-outage rest m once idle (omega (arith, same, below))
          (subst (Outages rest) (ap (λ x. x.1) e) more) in
      (l', round_goes r rest l once idle o.in_time failed m e ∙ ends, kept ∙ same)

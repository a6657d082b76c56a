-- ===== src/Policy/Session.antt =====
-- Sessions of src/aero_bot/policy.py: the state of each decision is threaded into the next.
use aero_bot.Policy.Parameters.{PolicyParameters}
use aero_bot.Prelude.{Bool, true, false, none, some, ◌≡◌, ◌≢◌, refl, arith, List, [], ◌∷◌, ◌∙◌}
use aero_bot.Prelude.Int.{◌<ℤ◌, ◌≤ℤ◌, ◌+ℤ◌}
use aero_bot.Prelude.Results.{ok, Ensures-ok}
use aero_bot.Ranging.Types.{Instant}
use aero_bot.Policy.Types.{Day, PolicyObservation, PolicyState, PolicyActionKind, PolicyOutcome}
use aero_bot.Policy.Day.{PolicyEngine, observe_day}
use aero_bot.Policy.Engine.{decide}
use aero_bot.Policy.Posture.{Follows, IsExclusive, cooldown_after, Posture}
use aero_bot.Policy.Posture.Decide.{decide-Follows, observe_day_keeps}
use aero_bot.Policy.Entry.{EntryGates}
use aero_bot.Policy.Entry.Decide.{decide-EntersBy}

abbrev pub Steps : Type 0
Steps = List (PolicyObservation × PolicyOutcome)

-- The outcomes are those of `decide`, each from the state that the one before it left.
abbrev pub Session : PolicyEngine → PolicyState → Steps → Type 0
Session engine state [] = Unit
Session engine state ((observation, out) ∷ steps) =
    (decide engine state observation ≡ ok out) × Session engine out.next_state steps

abbrev pub NeverEnters : Steps → Type 0
NeverEnters [] = Unit
NeverEnters ((_, out) ∷ steps) = (out.decision.action ≢ PolicyActionKind.enter) × NeverEnters steps

abbrev pub AllWithin : (PolicyObservation → Type 0) → Steps → Type 0
AllWithin P [] = Unit
AllWithin P ((observation, _) ∷ steps) = P observation × AllWithin P steps

abbrev pub IsHaltedOn : Day → PolicyState → Type 0
IsHaltedOn day state = (state.day ≡ some day) × (state.halted_day ≡ some day)

observe_day-IsHaltedOn :
    (engine : PolicyEngine) (day : Day) (state : PolicyState) (observation : PolicyObservation)
    → engine.new_york_day observation.observed_at ≡ day
    → IsHaltedOn day state
    → IsHaltedOn day (observe_day engine state observation)
unfolding observe_day
observe_day-IsHaltedOn engine day state observation on h = ground arith

-- From a state that does not hold both a position and inventory and in which the daily loss halt is
-- latched for its day, no session of observations of that day enters, whatever they observe.
pub halted_day-NeverEnters :
    (engine : PolicyEngine) (day : Day) (state : PolicyState) (steps : Steps)
    → IsExclusive state
    → IsHaltedOn day state
    → AllWithin (λ observation. engine.new_york_day observation.observed_at ≡ day) steps
    → Session engine state steps
    → NeverEnters steps
halted_day-NeverEnters engine day state [] exclusive halted within session = tt
halted_day-NeverEnters engine day state ((observation, out) ∷ steps) exclusive halted within
      session =
    let observed = observe_day engine state observation in
    let follows = Ensures-ok _ _ session.0 (decide-Follows engine state observation exclusive) in
    let entry = Ensures-ok _ _ session.0 (decide-EntersBy engine state observation exclusive) in
    let day_facts = follows.day_facts in
    let still = observe_day-IsHaltedOn engine day state observation within.0 halted in
    (
      λ entered. blocked observed still (entry entered).0,
      halted_day-NeverEnters engine day out.next_state steps follows.exclusive
          (day_facts.0 ∙ still.0, day_facts.1 ∙ still.1) within.1 session.1,
    )
  where
    blocked :
        (observed : PolicyState)
        → IsHaltedOn day observed
        → EntryGates engine.parameters observed observation
        → ⊥
    blocked observed still gates = ground arith

module _ (p : PolicyParameters) (observation : PolicyObservation) (observed : PolicyState)
    (out : PolicyOutcome) (until : Instant) where
  cooldown_blocks :
      observed.reentry_blocked_until ≡ some until
      → observation.observed_at <ℤ until
      → ¬ (EntryGates p observed observation)
  cooldown_blocks blocked early gates = over (rw blocked at gates.no_cooldown)
    where
      over : until ≤ℤ observation.observed_at → ⊥
      over late = omega arith

  -- Without a position, what is no entry leaves no position and the cooldown as it is.
  stays_flat :
      observed.position ≡ none
      → Follows p observation observed out
      → out.decision.action ≢ PolicyActionKind.enter
      → (out.next_state.position ≡ none)
        × (out.next_state.reentry_blocked_until ≡ observed.reentry_blocked_until)
  stays_flat flat follows not_entered =
      by_action out.decision.action refl (follows.posture) (follows.cooldown)
    where
      by_action :
          (action : PolicyActionKind)
          → out.decision.action ≡ action
          → Posture action observed out.next_state
          → out.next_state.reentry_blocked_until ≡ cooldown_after action p observation observed
          → (out.next_state.position ≡ none)
            × (out.next_state.reentry_blocked_until ≡ observed.reentry_blocked_until)
      by_action PolicyActionKind.enter e posture cooldown = absurd (not_entered e)
      by_action PolicyActionKind.pool_switch e posture cooldown = absurd posture
      by_action _ e posture cooldown = ground arith

-- From a flat state whose re-entry is blocked, no observation before the end of the block leads to
-- an entry.
cooldown-NeverEnters :
    (engine : PolicyEngine) (until : Instant) (state : PolicyState) (steps : Steps)
    → state.position ≡ none
    → state.reentry_blocked_until ≡ some until
    → AllWithin (λ observation. observation.observed_at <ℤ until) steps
    → Session engine state steps
    → NeverEnters steps
cooldown-NeverEnters engine until state [] flat blocked within session = tt
cooldown-NeverEnters engine until state ((observation, out) ∷ steps) flat blocked within session =
    let observed = observe_day engine state observation in
    let (same_position, _, same_cooldown, _) = observe_day_keeps engine state observation in
    let exclusive : IsExclusive state = ground arith in
    let follows = Ensures-ok _ _ session.0 (decide-Follows engine state observation exclusive) in
    let entry = Ensures-ok _ _ session.0 (decide-EntersBy engine state observation exclusive) in
    let blocks =
      cooldown_blocks engine.parameters observation observed out until (same_cooldown ∙ blocked)
        within.0 in
    let not_entered : out.decision.action ≢ PolicyActionKind.enter =
      λ entered. blocks (entry entered).0 in
    let (next_flat, next_cooldown) =
      stays_flat engine.parameters observation observed out until (same_position ∙ flat) follows
        not_entered in
    (
      not_entered,
      cooldown-NeverEnters engine until out.next_state steps next_flat
          (next_cooldown ∙ same_cooldown ∙ blocked) within.1 session.1,
    )

abbrev pub arms_cooldown : PolicyActionKind → Bool
arms_cooldown PolicyActionKind.stop_out = true
arms_cooldown PolicyActionKind.dilution_exit = true
arms_cooldown PolicyActionKind.range_grace_exit = true
arms_cooldown _ = false

armed :
    (p : PolicyParameters) (observation : PolicyObservation) (observed : PolicyState)
    (out : PolicyOutcome)
    → Follows p observation observed out
    → arms_cooldown out.decision.action ≡ true
    → (out.next_state.position ≡ none)
      × (out.next_state.reentry_blocked_until
          ≡ some (observation.observed_at +ℤ p.reentry_cooldown))
armed p observation observed out follows h =
    by_action out.decision.action h (follows.posture) (follows.cooldown)
  where
    by_action :
        (action : PolicyActionKind)
        → arms_cooldown action ≡ true
        → Posture action observed out.next_state
        → out.next_state.reentry_blocked_until ≡ cooldown_after action p observation observed
        → (out.next_state.position ≡ none)
          × (out.next_state.reentry_blocked_until
              ≡ some (observation.observed_at +ℤ p.reentry_cooldown))
    by_action PolicyActionKind.stop_out e posture cooldown = (posture.1, cooldown)
    by_action PolicyActionKind.dilution_exit e posture cooldown = (posture.1, cooldown)
    by_action PolicyActionKind.range_grace_exit e posture cooldown = (posture.1, cooldown)
    by_action _ e posture cooldown = cc

-- After a stop-out, a dilution exit or an out-of-range grace exit, decided from a state that did not
-- hold both a position and inventory, no session of observations within the re-entry cooldown
-- enters, whatever they observe.
pub exit_cooldown-NeverEnters :
    (engine : PolicyEngine) (state : PolicyState) (observation : PolicyObservation)
    (out : PolicyOutcome) (steps : Steps)
    → IsExclusive state
    → decide engine state observation ≡ ok out
    → arms_cooldown out.decision.action ≡ true
    → AllWithin
        (λ later.
          later.observed_at <ℤ observation.observed_at +ℤ engine.parameters.reentry_cooldown)
        steps
    → Session engine out.next_state steps
    → NeverEnters steps
exit_cooldown-NeverEnters engine state observation out steps exclusive decided arms within session =
    let observed = observe_day engine state observation in
    let follows = Ensures-ok _ _ decided (decide-Follows engine state observation exclusive) in
    let (flat, blocked) = armed engine.parameters observation observed out follows arms in
    cooldown-NeverEnters engine _ out.next_state steps flat blocked within session

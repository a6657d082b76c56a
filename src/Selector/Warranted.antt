-- ===== src/Selector/Warranted.antt =====
-- When `evaluate_switch` of src/aero_bot/selector.py displaces the held pool.
use aero_bot.Prelude.{
  ℕ, Bool, true, false, not, Option, none, some, List, ◌≡◌, refl, inl, inr, AllOf, ap, Option-cases,
  Bool-cases, sym, ◌∙◌, subst, if◌then◌else◌,
}
use aero_bot.Prelude.Results.{ok, value_error, validation_error, Ensures, Ensures-ok, Ensures-guard}
use aero_bot.Decimal.{Decimal, whole, lt, le}
use aero_bot.Audit.Text.{Text, same_text}
use aero_bot.Policy.Parameters.{PolicyParameters}
use aero_bot.Policy.Types.{PolicyOutcome}
use aero_bot.Policy.Gas.{batch_cost_usd}
use aero_bot.Selector.Board.{PoolEntryEvaluation, select_best_entry}
use aero_bot.Selector.Others.{NoBetterThan, others-Among, others-NoBetterThan}
use aero_bot.Selector.Best.{Among, IsBestOf, select_best_entry-IsBestOf}
use aero_bot.Selector.Switch.{
  SwitchDirective, combined_units, bound_usd, economics_at, switch_gas_economics, others, threshold,
  directive_if, sized_switch, switch_into, switch_to, build, evaluate_switch,
}

-- A gas price is known, and the cost of both batches is within the bound of the new position.
pub record Pays (p : PolicyParameters) (chosen : PoolEntryEvaluation) (outcome : PolicyOutcome)
    : Type 0 where
  pub entry_size : Decimal
  pub sized : outcome.decision.size_usd ≡ some entry_size
  pub positive : lt (whole 0) entry_size ≡ true
  pub gas_price : Decimal
  pub read : chosen.observation.gas_price_gwei ≡ some gas_price
  pub within :
      le (batch_cost_usd p (combined_units p) gas_price) (bound_usd p entry_size chosen.observation)
      ≡ true

-- What the directive says of the chosen evaluation.
pub record Displaces (p : PolicyParameters) (held_apr margin : Decimal)
    (directive : SwitchDirective) (chosen : PoolEntryEvaluation) : Type 0 where
  pub named : directive.to_symbol ≡ chosen.symbol
  pub addressed : directive.to_pool_address ≡ chosen.pool_address
  pub entered : chosen.entry_outcome ≡ some directive.entry_outcome
  pub clears_margin : lt (threshold held_apr margin) chosen.emissions_apr ≡ true
  pub pays : Pays p chosen directive.entry_outcome

pub record Warranted (p : PolicyParameters) (held_symbol : Text) (held_apr margin : Decimal)
    (evaluations : List PoolEntryEvaluation) (directive : SwitchDirective) : Type 0 where
  pub chosen : PoolEntryEvaluation
  pub on_board : Among chosen evaluations
  pub another : same_text chosen.symbol held_symbol ≡ false
  pub qualified : chosen.qualifies ≡ true
  pub unbeaten : AllOf (NoBetterThan held_symbol chosen) evaluations
  pub displaces : Displaces p held_apr margin directive chosen

abbrev OnSome : Option SwitchDirective → (SwitchDirective → Type 0) → Type 0
OnSome none P = Unit
OnSome (some directive) P = P directive

build-OnSome :
    (found : Option SwitchDirective) (P : SwitchDirective → Type 0)
    → OnSome found P
    → Ensures (build found) (λ o. OnSome o P)
unfolding build
build-OnSome none P h = tt
build-OnSome (some directive) P h =
    Ensures-guard (lt directive.held_emissions_apr (whole 0)) validation_error _ _ (λ _. h)

OnSome-map :
    {P Q : SwitchDirective → Type 0} (found : Option SwitchDirective)
    → ((directive : SwitchDirective) → P directive → Q directive)
    → OnSome found P
    → OnSome found Q
OnSome-map none f h = tt
OnSome-map (some directive) f h = f directive h

module _ (p : PolicyParameters) (entry_size : Decimal) (chosen : PoolEntryEvaluation) where
  economics_unread :
      chosen.observation.gas_price_gwei ≡ none
      → switch_gas_economics p entry_size chosen.observation ≡ (false, combined_units p, none)
  unfolding switch_gas_economics economics_at
  economics_unread e = ap (economics_at p entry_size chosen.observation) e

  economics_read :
      (gas_price : Decimal) (passes : Bool)
      → chosen.observation.gas_price_gwei ≡ some gas_price
      → le
          (batch_cost_usd p (combined_units p) gas_price)
          (bound_usd p entry_size chosen.observation)
        ≡ passes
      → switch_gas_economics p entry_size chosen.observation
        ≡ (passes, combined_units p, some (batch_cost_usd p (combined_units p) gas_price))
  unfolding switch_gas_economics economics_at
  economics_read gas_price passes e k =
      ap (economics_at p entry_size chosen.observation) e
      ∙ ap (λ b. (b, combined_units p, some (batch_cost_usd p (combined_units p) gas_price))) k

module _ (p : PolicyParameters) (held_symbol : Text) (held_apr margin : Decimal)
    (chosen : PoolEntryEvaluation) (outcome : PolicyOutcome)
    (entered : chosen.entry_outcome ≡ some outcome)
    (clears : lt (threshold held_apr margin) chosen.emissions_apr ≡ true) where
  abbrev Moved : Option SwitchDirective → Type 0
  Moved found = OnSome found (λ directive. Displaces p held_apr margin directive chosen)

  abbrev into : Bool × ℕ × Option Decimal → Option SwitchDirective
  into economics = directive_if p held_symbol held_apr margin chosen outcome economics

  directive_if-Moved :
      (entry_size : Decimal)
      → outcome.decision.size_usd ≡ some entry_size
      → lt (whole 0) entry_size ≡ true
      → Moved (into (switch_gas_economics p entry_size chosen.observation))
  unfolding directive_if
  directive_if-Moved entry_size sized positive =
      elim (Option-cases chosen.observation.gas_price_gwei) [
        | inl e ↦ subst (λ x. Moved (into x)) (sym (economics_unread p entry_size chosen e)) tt
        | inr (gas_price, e) ↦
            elim (Bool-cases (
              le (batch_cost_usd p (combined_units p) gas_price)
                (bound_usd p entry_size chosen.observation))) [
                  | inr k ↦
                      subst (λ x. Moved (into x))
                        (sym (economics_read p entry_size chosen gas_price false e k)) tt
                  | inl k ↦
                      subst (λ x. Moved (into x))
                        (sym (economics_read p entry_size chosen gas_price true e k))
                        (record {
                          named = refl;
                          addressed = refl;
                          entered = entered;
                          clears_margin = clears;
                          pays = record {
                            entry_size = entry_size;
                            sized = sized;
                            positive = positive;
                            gas_price = gas_price;
                            read = e;
                            within = k;
                          };
                        })
                ]
      ]

  sized_switch-Moved :
      (size : Option Decimal)
      → outcome.decision.size_usd ≡ size
      → Moved (sized_switch p held_symbol held_apr margin chosen outcome size)
  unfolding sized_switch
  sized_switch-Moved none e = tt
  sized_switch-Moved (some entry_size) e =
      let switch = into (switch_gas_economics p entry_size chosen.observation) in
      elim (Bool-cases (lt (whole 0) entry_size)) [
        | inr k ↦ subst (λ b. Moved (if not b then none else switch)) (sym k) tt
        | inl k ↦
            subst (λ b. Moved (if not b then none else switch)) (sym k)
              (directive_if-Moved entry_size e k)
      ]

module _ (p : PolicyParameters) (held_symbol : Text) (held_apr margin : Decimal) where
  switch_into-Moved :
      (chosen : PoolEntryEvaluation) (entry_outcome : Option PolicyOutcome)
      → chosen.entry_outcome ≡ entry_outcome
      → OnSome
          (switch_into p held_symbol held_apr margin chosen entry_outcome)
          (λ directive. Displaces p held_apr margin directive chosen)
  unfolding switch_into
  switch_into-Moved chosen none e = tt
  switch_into-Moved chosen (some outcome) e =
      let switch =
        sized_switch p held_symbol held_apr margin chosen outcome outcome.decision.size_usd in
      let Goal = λ (b : Bool).
        OnSome (if not b then none else switch)
          (λ directive. Displaces p held_apr margin directive chosen) in
      elim (Bool-cases (lt (threshold held_apr margin) chosen.emissions_apr)) [
        | inr k ↦ subst Goal (sym k) tt
        | inl k ↦ subst Goal (sym k) (
            sized_switch-Moved p held_symbol held_apr margin chosen outcome e k
              outcome.decision.size_usd refl)
      ]

  switch_to-Warranted :
      (evaluations : List PoolEntryEvaluation) (best : Option PoolEntryEvaluation)
      → IsBestOf (others held_symbol evaluations) best
      → OnSome
          (switch_to p held_symbol held_apr margin best)
          (Warranted p held_symbol held_apr margin evaluations)
  unfolding switch_to
  switch_to-Warranted evaluations none h = tt
  switch_to-Warranted evaluations (some chosen) (among, qualified, all) =
      let (on_board, another) = others-Among held_symbol chosen evaluations among in
      OnSome-map (switch_into p held_symbol held_apr margin chosen chosen.entry_outcome)
        (λ _ d. record {
          chosen = chosen;
          on_board = on_board;
          another = another;
          qualified = qualified;
          unbeaten = others-NoBetterThan held_symbol chosen evaluations all;
          displaces = d;
        })
        (switch_into-Moved chosen chosen.entry_outcome refl)

  -- A switch goes to an evaluation of the board that is not the held symbol's and qualifies, and
  -- that no qualifying evaluation of another symbol than the held one ranks better than. Its yield
  -- is above the held one's by more than the margin, its entry carries a positive size, the gas
  -- price is known, and the cost of both batches is within the bound for that size.
  pub evaluate_switch-Warranted :
      (evaluations : List PoolEntryEvaluation) (directive : SwitchDirective)
      → evaluate_switch p held_symbol held_apr margin evaluations ≡ ok (some directive)
      → Warranted p held_symbol held_apr margin evaluations directive
  unfolding evaluate_switch
  evaluate_switch-Warranted evaluations directive e =
      let P = Warranted p held_symbol held_apr margin evaluations in
      let best = select_best_entry (others held_symbol evaluations) in
      let found = switch_to p held_symbol held_apr margin best in
      Ensures-ok _ (λ o. OnSome o P) e
        (Ensures-guard (lt margin (whole 0)) value_error (build found) (λ o. OnSome o P)
          (λ _. build-OnSome found P (
            switch_to-Warranted evaluations best
              (select_best_entry-IsBestOf (others held_symbol evaluations)))))

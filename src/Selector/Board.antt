-- ===== src/Selector/Board.antt =====
-- `evaluate_pool_entries`, `select_best_entry` and `closest_call_evaluation` of
-- src/aero_bot/selector.py. The diagnostic line of a blocked evaluation is left out.
use aero_bot.Prelude.{
  Bool, true, false, ◌&&◌, ◌||◌, List, [], ◌∷◌, Option, none, some, if◌then◌else◌, ltb, ◌==◌,
}
use aero_bot.Prelude.Results.{Result, ok, ◌>>=◌}
use aero_bot.Decimal.{Decimal, lt}
use aero_bot.Audit.Text.{Text}
use aero_bot.Ranging.Types.{Instant}
use aero_bot.Policy.Types.{Address, PolicyObservation, PolicyState, PolicyReason, PolicyOutcome}
use aero_bot.Policy.Day.{PolicyEngine}
use aero_bot.Policy.Engine.{decide, is_enter}

pub record PoolBoardOption : Type 0 where
  pub symbol : Text
  pub pool_address : Address
  pub token_address : Address
  pub observation : PolicyObservation

pub record PoolEntryEvaluation : Type 0 where
  pub symbol : Text
  pub pool_address : Address
  pub observation : PolicyObservation
  pub emissions_apr : Decimal
  pub qualifies : Bool
  pub blocked_reason : Option PolicyReason
  pub entry_outcome : Option PolicyOutcome

-- The state that a pool is judged in: flat, with its own cooldown and its own dilution margin.
unfoldable pub pool_state :
    PolicyState
    → (reentry_blocked_until : Option Instant) (dilution_exit_pending : Option Bool) → PolicyState
pool_state base_state blocked_until pending = record base_state {
  position = none;
  held_inventory = none;
  reentry_blocked_until = blocked_until;
  dilution_exit_pending = elim pending [ none ↦ false | some p ↦ p ];
}

unfoldable pub evaluation_of : PoolBoardOption → PolicyOutcome → PoolEntryEvaluation
evaluation_of option outcome =
    let qualified = is_enter outcome.decision.action in
    record {
      symbol = option.symbol;
      pool_address = option.pool_address;
      observation = option.observation;
      emissions_apr = option.observation.emissions_apr;
      qualifies = qualified;
      blocked_reason = if qualified then none else some outcome.decision.reason;
      entry_outcome = if qualified then some outcome else none;
    }

-- The mappings from symbols are functions; where none is given, each symbol is missing.
unfoldable pub evaluate_pool_entries :
    PolicyEngine
    → PolicyState
    → List PoolBoardOption
    → (reentry_blocked_until_by_symbol : Text → Option Instant)
    → (dilution_exit_pending_by_symbol : Text → Option Bool) → Result (List PoolEntryEvaluation)
evaluate_pool_entries engine base_state [] blocked pending = ok []
evaluate_pool_entries engine base_state (option ∷ options) blocked pending =
    decide engine (pool_state base_state (blocked option.symbol) (pending option.symbol))
      option.observation
    >>= λ outcome.
        evaluate_pool_entries engine base_state options blocked pending >>= λ evaluations.
        ok (evaluation_of option outcome ∷ evaluations)

-- `<` of two strings.
unfoldable pub text_before : Text → Text → Bool
text_before [] [] = false
text_before [] (_ ∷ _) = true
text_before (_ ∷ _) [] = false
text_before (x ∷ xs) (y ∷ ys) = ltb x y || ((x == y) && text_before xs ys)

-- `_rank_better`
unfoldable pub rank_better : (candidate incumbent : PoolEntryEvaluation) → Bool
rank_better candidate incumbent =
    if lt candidate.emissions_apr incumbent.emissions_apr
      || lt incumbent.emissions_apr candidate.emissions_apr
    then lt incumbent.emissions_apr candidate.emissions_apr
    else text_before candidate.symbol incumbent.symbol

unfoldable pub better_of : Option PoolEntryEvaluation → PoolEntryEvaluation → PoolEntryEvaluation
better_of none evaluation = evaluation
better_of (some best) evaluation = if rank_better evaluation best then evaluation else best

-- The loop, from the best of the evaluations before.
unfoldable pub best_entry_from :
    Option PoolEntryEvaluation → List PoolEntryEvaluation → Option PoolEntryEvaluation
best_entry_from best [] = best
best_entry_from best (evaluation ∷ evaluations) =
    best_entry_from (if evaluation.qualifies then some (better_of best evaluation) else best)
      evaluations

unfoldable pub select_best_entry : List PoolEntryEvaluation → Option PoolEntryEvaluation
select_best_entry evaluations = best_entry_from none evaluations

unfoldable pub closest_from :
    Option PoolEntryEvaluation → List PoolEntryEvaluation → Option PoolEntryEvaluation
closest_from closest [] = closest
closest_from closest (evaluation ∷ evaluations) =
    closest_from (some (better_of closest evaluation)) evaluations

unfoldable pub closest_call_evaluation : List PoolEntryEvaluation → Option PoolEntryEvaluation
closest_call_evaluation evaluations = closest_from none evaluations

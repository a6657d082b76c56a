-- ===== src/Policy/Types.antt =====
-- The enumerations and records of src/aero_bot/policy.py. The diagnostic lines of a decision are
-- text for people that nothing reads back, and are left out.
use aero_bot.Prelude.{ℕ, Bool, Option, List}
use aero_bot.Prelude.Int.{ℤ}
use aero_bot.Decimal.{Decimal}
use aero_bot.Ranging.Types.{Instant, RangingEvidence, WidthSolution}

-- An address is a validated 20-byte number; the source compares its lower-case spelling.
abbrev pub Address : Type 0
Address = ℕ

-- A calendar day, by its ordinal.
abbrev pub Day : Type 0
Day = ℕ

pub record AlignedPriceRange : Type 0 where
  pub lower_tick : ℤ
  pub upper_tick : ℤ
  pub lower_price : Decimal
  pub upper_price : Decimal
  pub exact_bounds : Bool

pub data SwapDirection : Type 0 where
  buy_stock sell_stock : SwapDirection

pub record SwapTranche : Type 0 where
  pub usd_size : Decimal
  pub modeled_impact_fraction : Option Decimal

pub record SwapPlan : Type 0 where
  pub direction : SwapDirection
  pub total_usd : Decimal
  pub route_depth_usd : Decimal
  pub tranches : List SwapTranche
  pub max_modeled_impact_fraction : Option Decimal

pub record PolicyObservation : Type 0 where
  pub observed_at : Instant
  pub pool_address : Address
  pub token_address : Address
  pub amm_price_usdc : Decimal
  pub emissions_apr : Decimal
  pub conservative_income_apr : Option Decimal
  pub fee_apr : Decimal
  pub pool_depth_usd : Decimal
  pub equity_usd : Decimal
  pub portfolio_equity_usd : Option Decimal
  pub reference_price_usdc : Option Decimal
  pub reference_age_seconds : Option ℕ
  pub reference_enforcement_enabled : Bool
  pub oracle_stale : Bool
  pub registry_paused : Bool
  pub gas_price_gwei : Option Decimal
  pub ranging : Option RangingEvidence

pub data RangeSide : Type 0 where
  above below : RangeSide

pub record PolicyPosition : Type 0 where
  pub pool_address : Address
  pub token_address : Address
  pub price_range : AlignedPriceRange
  pub committed_usd : Decimal
  pub entered_at : Instant
  pub out_of_range_since : Option Instant
  pub out_of_range_side : Option RangeSide

pub data InventoryOrigin : Type 0 where
  stale_low_exit failed_entry failed_recenter adopted_balance out_of_range_exit : InventoryOrigin

pub record HeldInventory : Type 0 where
  pub pool_address : Address
  pub token_address : Address
  pub stock_quantity : Decimal
  pub held_since : Instant
  pub origin : InventoryOrigin

pub record PolicyState : Type 0 where
  pub day : Option Day
  pub day_start_equity_usd : Decimal
  pub peak_equity_usd : Option Decimal
  pub halted_day : Option Day
  pub position : Option PolicyPosition
  pub held_inventory : Option HeldInventory
  pub reentry_blocked_until : Option Instant
  pub dilution_exit_pending : Bool

pub data PolicyActionKind : Type 0 where
  hold enter recenter stop_out dilution_exit event_exit dislocation_exit stale_low_burn :
      PolicyActionKind
  defensive_exit range_grace_exit sell_inventory pool_switch : PolicyActionKind

pub data PolicyReason : Type 0 where
  open_in_range open_above_range_waiting open_below_edge_holding : PolicyReason
  downside_recenter_uneconomic downside_recenter_economic entry_threshold_met : PolicyReason
  flat_awaiting_entry failed_entry_retry failed_recenter_retry : PolicyReason
  emissions_below_entry_threshold entry_cooldown_active daily_loss_halt_active : PolicyReason
  out_of_range_grace_expired event_window_flat reference_stale entry_size_empty : PolicyReason
  recenter_wait_elapsed downside_stop_triggered dilution_exit_triggered : PolicyReason
  event_exit_triggered reference_stale_defensive_exit : PolicyReason
  dislocation_stale_high_triggered dislocation_stale_low_triggered : PolicyReason
  inventory_convergence_reached inventory_convergence_timeout : PolicyReason
  inventory_flat_window_sell holding_inventory_awaiting_convergence : PolicyReason
  inventory_unwind_pending gas_gate_deferred range_evidence_deferred : PolicyReason
  range_net_nonpositive dilution_reentry_margin_active pool_switch_triggered : PolicyReason
  no_qualifying_pool : PolicyReason

pub record PolicyDecision : Type 0 where
  pub action : PolicyActionKind
  pub reason : PolicyReason
  pub price_range : Option AlignedPriceRange
  pub size_usd : Option Decimal
  pub swap_plan : Option SwapPlan
  pub width_solution : Option WidthSolution
  pub estimated_gas_units : Option ℕ
  pub estimated_gas_cost_usd : Option Decimal

pub record PolicyOutcome : Type 0 where
  pub decision : PolicyDecision
  pub next_state : PolicyState

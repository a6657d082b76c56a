-- ===== src/Audit/Events.antt =====
-- `AuditEventType` of src/aero_bot/audit.py: the reviewed categories and their spellings.
use aero_bot.Prelude.{
  Option, none, some, List, [], ◌∷◌, ◌≡◌, refl, inl, inr, Bool-cases, if◌then◌else◌,
}
use aero_bot.Audit.Text.{Text, codes, same_text, same_text-true_iff}

pub data AuditEventType : Type 0 where
  risk_decision policy_decision transaction_plan transaction_simulation execution_quote
        execution_built execution_sent execution_confirmed execution_failed lp_mint_planned
        lp_stake_planned lp_unstake_planned lp_exit_planned lp_collect_planned lp_recenter_planned
        lp_status_reported lp_transaction_built lp_refused lp_execute_sent
        lp_execute_broadcast_unknown lp_execute_confirmed lp_execute_failed cctp_delivery_prepared
        lp_exit_swap_planned lp_aero_swap_planned system_state cycle_reported advisor_reported :
      AuditEventType

-- `event_type.value`
unfoldable pub value : AuditEventType → Text
value AuditEventType.risk_decision = codes "risk_decision"
value AuditEventType.policy_decision = codes "policy_decision"
value AuditEventType.transaction_plan = codes "transaction_plan"
value AuditEventType.transaction_simulation = codes "transaction_simulation"
value AuditEventType.execution_quote = codes "execution_quote"
value AuditEventType.execution_built = codes "execution_built"
value AuditEventType.execution_sent = codes "execution_sent"
value AuditEventType.execution_confirmed = codes "execution_confirmed"
value AuditEventType.execution_failed = codes "execution_failed"
value AuditEventType.lp_mint_planned = codes "lp_mint_planned"
value AuditEventType.lp_stake_planned = codes "lp_stake_planned"
value AuditEventType.lp_unstake_planned = codes "lp_unstake_planned"
value AuditEventType.lp_exit_planned = codes "lp_exit_planned"
value AuditEventType.lp_collect_planned = codes "lp_collect_planned"
value AuditEventType.lp_recenter_planned = codes "lp_recenter_planned"
value AuditEventType.lp_status_reported = codes "lp_status_reported"
value AuditEventType.lp_transaction_built = codes "lp_transaction_built"
value AuditEventType.lp_refused = codes "lp_refused"
value AuditEventType.lp_execute_sent = codes "lp_execute_sent"
value AuditEventType.lp_execute_broadcast_unknown = codes "lp_execute_broadcast_unknown"
value AuditEventType.lp_execute_confirmed = codes "lp_execute_confirmed"
value AuditEventType.lp_execute_failed = codes "lp_execute_failed"
value AuditEventType.cctp_delivery_prepared = codes "cctp_delivery_prepared"
value AuditEventType.lp_exit_swap_planned = codes "lp_exit_swap_planned"
value AuditEventType.lp_aero_swap_planned = codes "lp_aero_swap_planned"
value AuditEventType.system_state = codes "system_state"
value AuditEventType.cycle_reported = codes "cycle_reported"
value AuditEventType.advisor_reported = codes "advisor_reported"

abbrev every_event_type : List AuditEventType
every_event_type =
    AuditEventType.risk_decision ∷ AuditEventType.policy_decision ∷ AuditEventType.transaction_plan
    ∷ AuditEventType.transaction_simulation ∷ AuditEventType.execution_quote
    ∷ AuditEventType.execution_built ∷ AuditEventType.execution_sent
    ∷ AuditEventType.execution_confirmed ∷ AuditEventType.execution_failed
    ∷ AuditEventType.lp_mint_planned ∷ AuditEventType.lp_stake_planned
    ∷ AuditEventType.lp_unstake_planned ∷ AuditEventType.lp_exit_planned
    ∷ AuditEventType.lp_collect_planned ∷ AuditEventType.lp_recenter_planned
    ∷ AuditEventType.lp_status_reported ∷ AuditEventType.lp_transaction_built
    ∷ AuditEventType.lp_refused ∷ AuditEventType.lp_execute_sent
    ∷ AuditEventType.lp_execute_broadcast_unknown ∷ AuditEventType.lp_execute_confirmed
    ∷ AuditEventType.lp_execute_failed ∷ AuditEventType.cctp_delivery_prepared
    ∷ AuditEventType.lp_exit_swap_planned ∷ AuditEventType.lp_aero_swap_planned
    ∷ AuditEventType.system_state ∷ AuditEventType.cycle_reported ∷ AuditEventType.advisor_reported
    ∷ []

unfoldable pub find_event_type : Text → List AuditEventType → Option AuditEventType
find_event_type text [] = none
find_event_type text (event_type ∷ rest) =
    let later = find_event_type text rest in
    if same_text (value event_type) text then some event_type else later

-- `AuditEventType(text)`, or `none` where `ValueError` is raised.
unfoldable pub event_type_of : Text → Option AuditEventType
event_type_of text = find_event_type text every_event_type

find_event_type-value :
    (text : Text) (event_types : List AuditEventType) (event_type : AuditEventType)
    → find_event_type text event_types ≡ some event_type
    → text ≡ value event_type
unfolding find_event_type
find_event_type-value text [] event_type e = cc
find_event_type-value text (first ∷ rest) event_type e =
    let found = same_text-true_iff (value first) text in
    elim (Bool-cases (same_text (value first) text)) [
      | inl same ↦ let here = rw same at e in let spelled = found.0 same in cc
      | inr other ↦ find_event_type-value text rest event_type (rw other at e)
    ]

pub event_type_of-some :
    (text : Text) (event_type : AuditEventType)
    → event_type_of text ≡ some event_type
    → text ≡ value event_type
unfolding event_type_of
event_type_of-some text event_type e = find_event_type-value text every_event_type event_type e

pub event_type_of-value :
    (event_type : AuditEventType) → event_type_of (value event_type) ≡ some event_type
unfolding event_type_of find_event_type value same_text
event_type_of-value AuditEventType.risk_decision = refl
event_type_of-value AuditEventType.policy_decision = refl
event_type_of-value AuditEventType.transaction_plan = refl
event_type_of-value AuditEventType.transaction_simulation = refl
event_type_of-value AuditEventType.execution_quote = refl
event_type_of-value AuditEventType.execution_built = refl
event_type_of-value AuditEventType.execution_sent = refl
event_type_of-value AuditEventType.execution_confirmed = refl
event_type_of-value AuditEventType.execution_failed = refl
event_type_of-value AuditEventType.lp_mint_planned = refl
event_type_of-value AuditEventType.lp_stake_planned = refl
event_type_of-value AuditEventType.lp_unstake_planned = refl
event_type_of-value AuditEventType.lp_exit_planned = refl
event_type_of-value AuditEventType.lp_collect_planned = refl
event_type_of-value AuditEventType.lp_recenter_planned = refl
event_type_of-value AuditEventType.lp_status_reported = refl
event_type_of-value AuditEventType.lp_transaction_built = refl
event_type_of-value AuditEventType.lp_refused = refl
event_type_of-value AuditEventType.lp_execute_sent = refl
event_type_of-value AuditEventType.lp_execute_broadcast_unknown = refl
event_type_of-value AuditEventType.lp_execute_confirmed = refl
event_type_of-value AuditEventType.lp_execute_failed = refl
event_type_of-value AuditEventType.cctp_delivery_prepared = refl
event_type_of-value AuditEventType.lp_exit_swap_planned = refl
event_type_of-value AuditEventType.lp_aero_swap_planned = refl
event_type_of-value AuditEventType.system_state = refl
event_type_of-value AuditEventType.cycle_reported = refl
event_type_of-value AuditEventType.advisor_reported = refl

-- ===== src/Abi/Params.antt =====
-- The validated models of src/aero_bot/lp_calldata.py. An integer field is unbounded, as in Python;
-- the functions named after the models make their field and range checks.
use aero_bot.Prelude.{◌-◌, ◌%◌, ◌^◌, Bool, not, ◌&&◌, ◌==◌}
use aero_bot.Prelude.Int.{ℤ, pos, negsuc, ltb_ℤ, leb_ℤ, eqb_ℤ, abs_ℤ}
use aero_bot.Prelude.Results.{Result, ok, err, Error, checked, ◌>>=◌}
use aero_bot.Abi.Bytes.{Text}
use aero_bot.Abi.Address.{normalize_evm_address}
use aero_bot.Audit.Text.{same_text}

abbrev pub int24_min : ℤ
int24_min = negsuc (2 ^ 23 - 1)

abbrev pub int24_max : ℤ
int24_max = pos (2 ^ 23 - 1)

abbrev pub max_uint128 : ℤ
max_uint128 = pos (2 ^ 128 - 1)

-- Field(ge=low, le=high), Field(gt=0, le=high), Field(ge=0) and Field(gt=0).
abbrev pub within : ℤ → ℤ → ℤ → Bool
within low high value = leb_ℤ low value && leb_ℤ value high

abbrev pub positive : ℤ → Bool
positive value = ltb_ℤ (pos 0) value

abbrev pub non_negative : ℤ → Bool
non_negative value = leb_ℤ (pos 0) value

-- `tick % tick_spacing == 0`: a number is a multiple whatever its sign.
abbrev pub is_multiple : ℤ → ℤ → Bool
is_multiple tick tick_spacing = abs_ℤ tick % abs_ℤ tick_spacing == 0

-- A field of an address type is normalized, and what raises there is a validation error.
abbrev pub as_field : Result Text → Result Text
as_field (ok address) = ok address
as_field (err _) = err Error.validation_error

abbrev pub address_field : Text → Result Text
address_field text = as_field (normalize_evm_address text)

abbrev pub validated : {A : Type 0} → Bool → A → Result A
validated condition value = checked condition Error.validation_error value

pub record LpMintParams : Type 0 where
  pub token0_address : Text
  pub token1_address : Text
  pub tick_spacing : ℤ
  pub tick_lower : ℤ
  pub tick_upper : ℤ
  pub amount0_desired_units : ℤ
  pub amount1_desired_units : ℤ
  pub amount0_min_units : ℤ
  pub amount1_min_units : ℤ
  pub recipient_address : Text
  pub deadline : ℤ
  pub sqrt_price_x96 : ℤ

unfoldable pub mint_fields_fit : LpMintParams → Bool
mint_fields_fit p =
    positive p.tick_spacing
    && leb_ℤ p.tick_spacing int24_max
    && within int24_min int24_max p.tick_lower
    && within int24_min int24_max p.tick_upper
    && non_negative p.amount0_desired_units
    && non_negative p.amount1_desired_units
    && non_negative p.amount0_min_units
    && non_negative p.amount1_min_units
    && positive p.deadline
    && non_negative p.sqrt_price_x96

unfoldable pub coherent_mint_range : LpMintParams → Bool
coherent_mint_range p =
    ltb_ℤ p.tick_lower p.tick_upper
    && is_multiple p.tick_lower p.tick_spacing
    && is_multiple p.tick_upper p.tick_spacing
    && not (eqb_ℤ p.amount0_desired_units (pos 0) && eqb_ℤ p.amount1_desired_units (pos 0))
    && not (same_text p.token0_address p.token1_address)

-- `LpMintParams(...)`
unfoldable pub lp_mint_params : LpMintParams → Result LpMintParams
lp_mint_params raw = do
  token0 ← address_field raw.token0_address
  token1 ← address_field raw.token1_address
  recipient ← address_field raw.recipient_address
  let params = record raw {
    token0_address = token0;
    token1_address = token1;
    recipient_address = recipient;
  }
  validated (mint_fields_fit params && coherent_mint_range params) params

pub record LpDecreaseLiquidityParams : Type 0 where
  pub token_id : ℤ
  pub liquidity : ℤ
  pub amount0_min_units : ℤ
  pub amount1_min_units : ℤ
  pub deadline : ℤ

unfoldable pub lp_decrease_liquidity_params :
    LpDecreaseLiquidityParams → Result LpDecreaseLiquidityParams
lp_decrease_liquidity_params raw =
    validated
      (non_negative raw.token_id
        && positive raw.liquidity
        && leb_ℤ raw.liquidity max_uint128
        && non_negative raw.amount0_min_units
        && non_negative raw.amount1_min_units
        && positive raw.deadline)
      raw

pub record LpCollectParams : Type 0 where
  pub token_id : ℤ
  pub recipient_address : Text
  pub amount0_max_units : ℤ
  pub amount1_max_units : ℤ

unfoldable pub lp_collect_params : LpCollectParams → Result LpCollectParams
lp_collect_params raw = do
  recipient ← address_field raw.recipient_address
  validated
      (non_negative raw.token_id
        && within (pos 0) max_uint128 raw.amount0_max_units
        && within (pos 0) max_uint128 raw.amount1_max_units
        && not (eqb_ℤ raw.amount0_max_units (pos 0) && eqb_ℤ raw.amount1_max_units (pos 0)))
      (record raw { recipient_address = recipient })

pub record LpPositionView : Type 0 where
  pub nonce : ℤ
  pub operator_address : Text
  pub token0_address : Text
  pub token1_address : Text
  pub tick_spacing : ℤ
  pub tick_lower : ℤ
  pub tick_upper : ℤ
  pub liquidity : ℤ
  pub fee_growth_inside0_last_x128 : ℤ
  pub fee_growth_inside1_last_x128 : ℤ
  pub tokens_owed0_units : ℤ
  pub tokens_owed1_units : ℤ

unfoldable pub position_fields_fit : LpPositionView → Bool
position_fields_fit v =
    non_negative v.nonce
    && positive v.tick_spacing
    && within int24_min int24_max v.tick_lower
    && within int24_min int24_max v.tick_upper
    && within (pos 0) max_uint128 v.liquidity
    && non_negative v.fee_growth_inside0_last_x128
    && non_negative v.fee_growth_inside1_last_x128
    && within (pos 0) max_uint128 v.tokens_owed0_units
    && within (pos 0) max_uint128 v.tokens_owed1_units

unfoldable pub ordered_position_range : LpPositionView → Bool
ordered_position_range v =
    ltb_ℤ v.tick_lower v.tick_upper
    && is_multiple v.tick_lower v.tick_spacing
    && is_multiple v.tick_upper v.tick_spacing

-- `LpPositionView.model_validate`
unfoldable pub lp_position_view : LpPositionView → Result LpPositionView
lp_position_view raw = do
  operator ← address_field raw.operator_address
  token0 ← address_field raw.token0_address
  token1 ← address_field raw.token1_address
  let view = record raw {
    operator_address = operator;
    token0_address = token0;
    token1_address = token1;
  }
  validated (position_fields_fit view && ordered_position_range view) view

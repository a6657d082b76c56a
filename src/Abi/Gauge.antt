-- ===== src/Abi/Gauge.antt =====
-- The builders of src/aero_bot/lp_calldata.py for the gauge and its factory.
use aero_bot.Prelude.{[], ◌∷◌}
use aero_bot.Prelude.Int.{ℤ, pos, ltb_ℤ}
use aero_bot.Prelude.Results.{Result, Error, raise_if, ◌>>◌}
use aero_bot.Abi.Bytes.{Text}
use aero_bot.Abi.Address.{with_prefix}
use aero_bot.Abi.Words.{word, address_word}
use aero_bot.Abi.Position.{selector, call_with, token_call}

-- b6b55f25
abbrev pub build_gauge_deposit_calldata : ℤ → Result Text
build_gauge_deposit_calldata = token_call (selector 182 181 95 37)

-- 2e1a7d4d
abbrev pub build_gauge_withdraw_calldata : ℤ → Result Text
build_gauge_withdraw_calldata = token_call (selector 46 26 125 77)

-- 1c4b774b
abbrev pub build_gauge_get_reward_calldata : ℤ → Result Text
build_gauge_get_reward_calldata = token_call (selector 28 75 119 75)

-- 3e491d47
unfoldable pub build_gauge_earned_read_calldata : Text → ℤ → Result Text
build_gauge_earned_read_calldata depositor_address token_id = do
  raise_if (ltb_ℤ token_id (pos 0)) Error.value_error
  call_with (selector 62 73 29 71) (address_word depositor_address ∷ word token_id ∷ [])

-- f301af42
abbrev pub build_gauge_rewards_read_calldata : ℤ → Result Text
build_gauge_rewards_read_calldata = token_call (selector 243 1 175 66)

-- 0d52333c
abbrev pub build_gauge_gauge_factory_read_calldata : Text
build_gauge_gauge_factory_read_calldata = with_prefix (selector 13 82 51 60)

-- d6b7494f
abbrev pub build_gauge_penalty_rate_read_calldata : Text
build_gauge_penalty_rate_read_calldata = with_prefix (selector 214 183 73 79)

-- e782453b
abbrev pub build_gauge_min_stake_times_read_calldata : Text → Result Text
build_gauge_min_stake_times_read_calldata pool_address =
    call_with (selector 231 130 69 59) (address_word pool_address ∷ [])

-- 4ede8c85
abbrev pub build_gauge_deposit_timestamp_read_calldata : ℤ → Result Text
build_gauge_deposit_timestamp_read_calldata = token_call (selector 78 222 140 133)

-- f7c618c1
abbrev pub build_gauge_reward_token_read_calldata : Text
build_gauge_reward_token_read_calldata = with_prefix (selector 247 198 24 193)

-- 7b0a47ee
abbrev pub build_gauge_reward_rate_read_calldata : Text
build_gauge_reward_rate_read_calldata = with_prefix (selector 123 10 71 238)

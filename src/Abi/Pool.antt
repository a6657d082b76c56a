-- ===== src/Abi/Pool.antt =====
-- The builders of src/aero_bot/lp_calldata.py for the reads of a pool, its factory, voter and tokens.
use aero_bot.Prelude.{[], ◌∷◌, if◌then◌else◌}
use aero_bot.Prelude.Int.{ℤ, pos, eqb_ℤ}
use aero_bot.Prelude.Results.{Result, ok, err, Error}
use aero_bot.Abi.Bytes.{Text}
use aero_bot.Abi.Address.{with_prefix}
use aero_bot.Abi.Words.{signed_word, address_word}
use aero_bot.Abi.Position.{selector, call_with}

-- 3850c7bd
abbrev pub build_pool_slot0_read_calldata : Text
build_pool_slot0_read_calldata = with_prefix (selector 56 80 199 189)

-- f3058399, 46141319
unfoldable pub build_pool_fee_growth_global_read_calldata : ℤ → Result Text
build_pool_fee_growth_global_read_calldata token_index =
    if eqb_ℤ token_index (pos 0)
    then ok (with_prefix (selector 243 5 131 153))
    else if eqb_ℤ token_index (pos 1)
    then ok (with_prefix (selector 70 20 19 25))
    else err Error.value_error

-- f30dba93
abbrev pub build_pool_ticks_read_calldata : ℤ → Result Text
build_pool_ticks_read_calldata tick = call_with (selector 243 13 186 147) (signed_word tick ∷ [])

-- 1a686502
abbrev pub build_pool_liquidity_read_calldata : Text
build_pool_liquidity_read_calldata = with_prefix (selector 26 104 101 2)

-- 3ab04b20
abbrev pub build_pool_staked_liquidity_read_calldata : Text
build_pool_staked_liquidity_read_calldata = with_prefix (selector 58 176 75 32)

-- 0dfe1681
abbrev pub build_pool_token0_read_calldata : Text
build_pool_token0_read_calldata = with_prefix (selector 13 254 22 129)

-- d21220a7
abbrev pub build_pool_token1_read_calldata : Text
build_pool_token1_read_calldata = with_prefix (selector 210 18 32 167)

-- d0c93a7c
abbrev pub build_pool_tick_spacing_read_calldata : Text
build_pool_tick_spacing_read_calldata = with_prefix (selector 208 201 58 124)

-- c45a0155
abbrev pub build_pool_factory_read_calldata : Text
build_pool_factory_read_calldata = with_prefix (selector 196 90 1 85)

-- a6f19c84
abbrev pub build_pool_gauge_read_calldata : Text
build_pool_gauge_read_calldata = with_prefix (selector 166 241 156 132)

-- 47ccca02
abbrev pub build_gauge_factory_nft_read_calldata : Text
build_gauge_factory_nft_read_calldata = with_prefix (selector 71 204 202 2)

-- 46c96aac
abbrev pub build_factory_voter_read_calldata : Text
build_factory_voter_read_calldata = with_prefix (selector 70 201 106 172)

-- 1703e5f9
abbrev pub build_voter_is_alive_read_calldata : Text → Result Text
build_voter_is_alive_read_calldata gauge_address =
    call_with (selector 23 3 229 249) (address_word gauge_address ∷ [])

-- 5b16ebb7
abbrev pub build_factory_is_pool_read_calldata : Text → Result Text
build_factory_is_pool_read_calldata pool_address =
    call_with (selector 91 22 235 183) (address_word pool_address ∷ [])

-- 35458dcc
abbrev pub build_factory_get_swap_fee_read_calldata : Text → Result Text
build_factory_get_swap_fee_read_calldata pool_address =
    call_with (selector 53 69 141 204) (address_word pool_address ∷ [])

-- 48cf7a43
abbrev pub build_factory_get_unstaked_fee_read_calldata : Text → Result Text
build_factory_get_unstaked_fee_read_calldata pool_address =
    call_with (selector 72 207 122 67) (address_word pool_address ∷ [])

-- 70a08231
abbrev pub build_erc20_balance_of_read_calldata : Text → Result Text
build_erc20_balance_of_read_calldata owner_address =
    call_with (selector 112 160 130 49) (address_word owner_address ∷ [])

-- ===== src/Abi/Tests.antt =====
-- Runs of the encoders and decoders of src/aero_bot/lp_calldata.py.
use aero_bot.Prelude.{ℕ, true, false, List, [], ◌∷◌, ◌≡◌, ◌≢◌, refl, replicate, length, arith}
use aero_bot.Prelude.Int.{pos, negsuc}
use aero_bot.Prelude.Results.{Result, ok, err, Error, Returns}
use aero_bot.Abi.Bytes.{
  Text, Bytes, hex, to_bytes, hex_digit, from_hex_after, digit_value, is_space,
}
use aero_bot.Abi.Address.{with_prefix, normalize_evm_address, is_evm_address, is_hex_digit, lower}
use aero_bot.Abi.Words.{word, signed_word, address_word, selector_and_words}
use aero_bot.Abi.Params.{
  LpMintParams, LpDecreaseLiquidityParams, LpPositionView, lp_mint_params, lp_position_view,
  mint_fields_fit, coherent_mint_range, position_fields_fit, ordered_position_range,
}
use aero_bot.Abi.Position.{
  join_words, build_lp_mint_calldata, build_lp_decrease_liquidity_calldata,
  decode_lp_positions_view,
}
use aero_bot.Abi.Views.{
  TickInfo, decode_pool_slot0_view, decode_pool_ticks_view_result, decode_address_view_result,
}
use aero_bot.Abi.Structs.{mint_of, decrease_of}
use aero_bot.Abi.Calls.{
  read_call, build_lp_mint_calldata-read, build_lp_decrease_liquidity_calldata-read,
}
use aero_bot.Abi.MintErrors.{build_lp_mint_calldata-verdict, mint_amounts_fit}
use aero_bot.Abi.PositionTrip.{position_view_encoders, decode_lp_positions_view-encoded}
use aero_bot.Abi.ViewTrip.{decode_address_view_result-word, decode_pool_slot0_view-encoded}
use aero_bot.Abi.TickTrip.{tick_encoders, decode_pool_ticks_view_result-encoded}
use aero_bot.Abi.Joined.{word-IsWord}
use aero_bot.Audit.Text.{same_text}
use aero_bot.Policy.Examples.{is_ok, result_or, result_or-ok}

-- An address of forty equal digits.
abbrev address_of : ℕ → Text
address_of digit = with_prefix (replicate 40 digit)

abbrev mint_params : LpMintParams
mint_params = record {
  token0_address = address_of 49;
  token1_address = address_of 98;
  tick_spacing = pos 10;
  tick_lower = negsuc 199;
  tick_upper = pos 300;
  amount0_desired_units = pos 1_000_000;
  amount1_desired_units = pos 5;
  amount0_min_units = pos 0;
  amount1_min_units = pos 0;
  recipient_address = address_of 51;
  deadline = pos 1_790_000_000;
  sqrt_price_x96 = pos 0;
}

mint_is_valid : lp_mint_params mint_params ≡ ok mint_params
unfolding lp_mint_params mint_fields_fit coherent_mint_range normalize_evm_address same_text
    is_evm_address is_hex_digit lower
mint_is_valid = refl

abbrev mint_text : Text
mint_text = result_or [] (build_lp_mint_calldata mint_params)

mint_is_built : is_ok (build_lp_mint_calldata mint_params) ≡ true
unfolding build_lp_mint_calldata word signed_word address_word normalize_evm_address is_evm_address
    is_hex_digit lower from_hex_after digit_value is_space to_bytes selector_and_words hex hex_digit
mint_is_built = refl

build_lp_mint_calldata-read_example :
    (content : Bytes) × (read_call mint_text ≡ ok (181 ∷ 0 ∷ 125 ∷ 31 ∷ [], content))
    × (length content ≡ 384)
    × (mint_of content ≡ mint_params)
build_lp_mint_calldata-read_example =
    build_lp_mint_calldata-read mint_params mint_text mint_is_valid
      (result_or-ok [] (build_lp_mint_calldata mint_params) mint_is_built)

build_lp_mint_calldata-verdict_example :
    (mint_amounts_fit mint_params ≡ true
      → Returns (build_lp_mint_calldata mint_params) (λ text. length text ≡ 778))
    × (mint_amounts_fit mint_params ≡ false
        → build_lp_mint_calldata mint_params ≡ err Error.value_error)
build_lp_mint_calldata-verdict_example = build_lp_mint_calldata-verdict mint_params mint_is_valid

abbrev decrease_params : LpDecreaseLiquidityParams
decrease_params = record {
  token_id = pos 77;
  liquidity = pos 123_456_789;
  amount0_min_units = pos 0;
  amount1_min_units = pos 9;
  deadline = pos 1_790_000_000;
}

abbrev decrease_text : Text
decrease_text = result_or [] (build_lp_decrease_liquidity_calldata decrease_params)

decrease_is_built : is_ok (build_lp_decrease_liquidity_calldata decrease_params) ≡ true
unfolding build_lp_decrease_liquidity_calldata word to_bytes selector_and_words hex hex_digit
decrease_is_built = refl

build_lp_decrease_liquidity_calldata-read_example :
    (content : Bytes) × (read_call decrease_text ≡ ok (12 ∷ 73 ∷ 204 ∷ 190 ∷ [], content))
    × (decrease_of content ≡ decrease_params)
build_lp_decrease_liquidity_calldata-read_example =
    build_lp_decrease_liquidity_calldata-read decrease_params decrease_text
      (result_or-ok [] (build_lp_decrease_liquidity_calldata decrease_params) decrease_is_built)

abbrev view : LpPositionView
view = record {
  nonce = pos 0;
  operator_address = address_of 48;
  token0_address = address_of 49;
  token1_address = address_of 98;
  tick_spacing = pos 10;
  tick_lower = negsuc 199;
  tick_upper = pos 300;
  liquidity = pos 123_456_789;
  fee_growth_inside0_last_x128 = pos 5;
  fee_growth_inside1_last_x128 = pos 6;
  tokens_owed0_units = pos 0;
  tokens_owed1_units = pos 7;
}

view_is_valid : lp_position_view view ≡ ok view
unfolding lp_position_view position_fields_fit ordered_position_range normalize_evm_address
    is_evm_address is_hex_digit lower
view_is_valid = refl

abbrev view_content : Bytes
view_content = result_or [] (join_words (position_view_encoders view))

view_is_joined : is_ok (join_words (position_view_encoders view)) ≡ true
unfolding word signed_word address_word normalize_evm_address is_evm_address is_hex_digit lower
    from_hex_after digit_value is_space
view_is_joined = refl

decode_lp_positions_view-encoded_example :
    decode_lp_positions_view (with_prefix (hex view_content)) ≡ ok view
decode_lp_positions_view-encoded_example =
    decode_lp_positions_view-encoded view view_content view_is_valid
      (result_or-ok [] (join_words (position_view_encoders view)) view_is_joined)

-- An address in upper case.
abbrev shouted : Text
shouted = address_of 65

abbrev shouted_word : Bytes
shouted_word = result_or [] (address_word shouted)

shouted_is_encoded : is_ok (address_word shouted) ≡ true
unfolding address_word normalize_evm_address is_evm_address is_hex_digit lower from_hex_after
    digit_value is_space
shouted_is_encoded = refl

decode_address_view_result-word_example :
    decode_address_view_result (with_prefix (hex shouted_word)) ≡ normalize_evm_address shouted
decode_address_view_result-word_example =
    decode_address_view_result-word shouted shouted_word
      (result_or-ok [] (address_word shouted) shouted_is_encoded)

abbrev slot0_encoders : List (Result Bytes)
slot0_encoders = word (pos 79_228_162) ∷ signed_word (negsuc 99) ∷ word (pos 3) ∷ []

abbrev slot0_content : Bytes
slot0_content = result_or [] (join_words slot0_encoders)

slot0_is_joined : is_ok (join_words slot0_encoders) ≡ true
unfolding word signed_word
slot0_is_joined = refl

decode_pool_slot0_view-encoded_example :
    decode_pool_slot0_view (with_prefix (hex slot0_content)) ≡ ok (79_228_162, negsuc 99)
decode_pool_slot0_view-encoded_example =
    decode_pool_slot0_view-encoded 79_228_162 (negsuc 99) (word (pos 3) ∷ []) slot0_content
      (omega arith) refl (word-IsWord (pos 3), tt)
      (result_or-ok [] (join_words slot0_encoders) slot0_is_joined)

abbrev tick : TickInfo
tick = record {
  liquidity_gross = 10;
  liquidity_net = negsuc 4;
  fee_growth_outside0 = 11;
  fee_growth_outside1 = 12;
}

abbrev last_words : List (Result Bytes)
last_words = replicate 5 (word (pos 1))

abbrev tick_content : Bytes
tick_content = result_or [] (join_words (tick_encoders tick (negsuc 8) last_words))

tick_is_joined : is_ok (join_words (tick_encoders tick (negsuc 8) last_words)) ≡ true
unfolding word signed_word
tick_is_joined = refl

decode_pool_ticks_view_result-encoded_example :
    (length last_words ≡ 5
      → decode_pool_ticks_view_result (with_prefix (hex tick_content)) ≡ ok tick)
    × (length last_words ≢ 5
        → decode_pool_ticks_view_result (with_prefix (hex tick_content)) ≡ err Error.value_error)
decode_pool_ticks_view_result-encoded_example =
    decode_pool_ticks_view_result-encoded tick (negsuc 8) last_words tick_content
      (
        word-IsWord (pos 1),
        (
          word-IsWord (pos 1),
          (word-IsWord (pos 1), (word-IsWord (pos 1), (word-IsWord (pos 1), tt))),
        ),
      )
      (result_or-ok [] (join_words (tick_encoders tick (negsuc 8) last_words)) tick_is_joined)

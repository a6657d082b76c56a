-- ===== src/Abi/Position.antt =====
-- The builders of src/aero_bot/lp_calldata.py for the position manager, and its position view.
use aero_bot.Prelude.{ℕ, Bool, List, [], ◌∷◌, ◌++◌, ◌==◌, ◌*◌, length, if◌then◌else◌}
use aero_bot.Prelude.Int.{ℤ, pos, ltb_ℤ}
use aero_bot.Prelude.Results.{Result, ok, err, Error, raise_if, ◌>>=◌, ◌>>◌}
use aero_bot.Abi.Bytes.{Text, Bytes, hex}
use aero_bot.Abi.Words.{
  word, signed_word, address_word, selector_and_words, unsigned_at, signed_value, low_address,
  view_bytes, word_bytes,
}
use aero_bot.Abi.Params.{
  LpMintParams, LpDecreaseLiquidityParams, LpCollectParams, LpPositionView, lp_position_view,
}

-- The eight digits of four bytes.
abbrev pub selector : ℕ → ℕ → ℕ → ℕ → Text
selector a b c d = hex (a ∷ b ∷ c ∷ d ∷ [])

-- The words of a call, in order: the first encoder that raises ends it.
abbrev pub join_words : List (Result Bytes) → Result Bytes
join_words [] = ok []
join_words (encoded ∷ rest) =
    encoded >>= λ first. (join_words rest >>= λ others. ok (first ++ others))

abbrev pub call_with : Text → List (Result Bytes) → Result Text
call_with chosen encoded = join_words encoded >>= λ words. ok (selector_and_words chosen words)

-- b5007d1f
unfoldable pub build_lp_mint_calldata : LpMintParams → Result Text
build_lp_mint_calldata params = call_with (selector 181 0 125 31) (
    address_word params.token0_address
    ∷ address_word params.token1_address
    ∷ signed_word params.tick_spacing
    ∷ signed_word params.tick_lower
    ∷ signed_word params.tick_upper
    ∷ word params.amount0_desired_units
    ∷ word params.amount1_desired_units
    ∷ word params.amount0_min_units
    ∷ word params.amount1_min_units
    ∷ address_word params.recipient_address
    ∷ word params.deadline
    ∷ word params.sqrt_price_x96
    ∷ [])

-- 0c49ccbe
unfoldable pub build_lp_decrease_liquidity_calldata : LpDecreaseLiquidityParams → Result Text
build_lp_decrease_liquidity_calldata params = call_with (selector 12 73 204 190) (
    word params.token_id
    ∷ word params.liquidity
    ∷ word params.amount0_min_units
    ∷ word params.amount1_min_units
    ∷ word params.deadline
    ∷ [])

-- fc6f7865
unfoldable pub build_lp_collect_calldata : LpCollectParams → Result Text
build_lp_collect_calldata params = call_with (selector 252 111 120 101) (
    word params.token_id
    ∷ address_word params.recipient_address
    ∷ word params.amount0_max_units
    ∷ word params.amount1_max_units
    ∷ [])

-- a22cb465
unfoldable pub build_set_approval_for_all_calldata : Text → Bool → Result Text
build_set_approval_for_all_calldata operator_address approved =
    call_with (selector 162 44 180 101)
      (address_word operator_address ∷ word (if approved then pos 1 else pos 0) ∷ [])

-- A call whose argument is the id of a position.
unfoldable pub token_call : Text → ℤ → Result Text
token_call chosen token_id = do
  raise_if (ltb_ℤ token_id (pos 0)) Error.value_error
  call_with chosen (word token_id ∷ [])

-- 42966c68
abbrev pub build_lp_burn_calldata : ℤ → Result Text
build_lp_burn_calldata = token_call (selector 66 150 108 104)

-- 99fbab88
abbrev pub build_lp_positions_read_calldata : ℤ → Result Text
build_lp_positions_read_calldata = token_call (selector 153 251 171 136)

abbrev pub positions_view_words : ℕ
positions_view_words = 12

-- The fields of a position view, by the offsets of their words.
unfoldable pub position_view_of : Bytes → LpPositionView
position_view_of content =
    let unsigned_word : ℕ → ℤ = λ index. pos (unsigned_at content index) in
    let signed : ℕ → ℤ = λ index. signed_value (unsigned_at content index) in
    let address : ℕ → Text = λ index. low_address (unsigned_at content index) in
    record {
      nonce = unsigned_word 0;
      operator_address = address 1;
      token0_address = address 2;
      token1_address = address 3;
      tick_spacing = signed 4;
      tick_lower = signed 5;
      tick_upper = signed 6;
      liquidity = unsigned_word 7;
      fee_growth_inside0_last_x128 = unsigned_word 8;
      fee_growth_inside1_last_x128 = unsigned_word 9;
      tokens_owed0_units = unsigned_word 10;
      tokens_owed1_units = unsigned_word 11;
    }

unfoldable pub decode_lp_positions_view : Text → Result LpPositionView
decode_lp_positions_view result = do
  content ← view_bytes result
  if length content == positions_view_words * word_bytes
      then lp_position_view (position_view_of content)
      else err Error.value_error

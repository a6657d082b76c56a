-- ===== src/Abi/PositionTrip.antt =====
-- The position view and the mint of src/aero_bot/lp_calldata.py, there and back.
use aero_bot.Prelude.{◌&&◌, List, [], ◌∷◌, ◌≡◌, refl}
use aero_bot.Prelude.Results.{Result, ok, Error, Ensures, Ensures-bind, Ensures-checked, Ensures-ok}
use aero_bot.Abi.Bytes.{Bytes, hex}
use aero_bot.Abi.Address.{IsAddress, with_prefix}
use aero_bot.Abi.Words.{word, signed_word, address_word}
use aero_bot.Abi.Params.{
  LpPositionView, lp_position_view, address_field, position_fields_fit, ordered_position_range,
}
use aero_bot.Abi.Position.{join_words, position_view_of, decode_lp_positions_view}
use aero_bot.Abi.Joined.{
  word-IsWord, signed_word-IsWord, address_word-IsWord, address_field-IsAddress, nth_word, AllWords,
  join_words-IsBytes, unsigned_field, signed_field, address_field_lem, view_bytes-hex,
}

-- The words of a position view, in the order of the contract's return.
abbrev pub position_view_encoders : LpPositionView → List (Result Bytes)
position_view_encoders view =
    word view.nonce
    ∷ address_word view.operator_address
    ∷ address_word view.token0_address
    ∷ address_word view.token1_address
    ∷ signed_word view.tick_spacing
    ∷ signed_word view.tick_lower
    ∷ signed_word view.tick_upper
    ∷ word view.liquidity
    ∷ word view.fee_growth_inside0_last_x128
    ∷ word view.fee_growth_inside1_last_x128
    ∷ word view.tokens_owed0_units
    ∷ word view.tokens_owed1_units
    ∷ []

module _ (view : LpPositionView) (operator : IsAddress view.operator_address)
    (token0 : IsAddress view.token0_address) (token1 : IsAddress view.token1_address) where
  position_view-AllWords : AllWords (position_view_encoders view)
  position_view-AllWords = (
    word-IsWord view.nonce,
    (
      address_word-IsWord view.operator_address operator,
      (
        address_word-IsWord view.token0_address token0,
        (
          address_word-IsWord view.token1_address token1,
          (
            signed_word-IsWord view.tick_spacing,
            (
              signed_word-IsWord view.tick_lower,
              (
                signed_word-IsWord view.tick_upper,
                (
                  word-IsWord view.liquidity,
                  (
                    word-IsWord view.fee_growth_inside0_last_x128,
                    (
                      word-IsWord view.fee_growth_inside1_last_x128,
                      (
                        word-IsWord view.tokens_owed0_units,
                        (word-IsWord view.tokens_owed1_units, tt),
                      ),
                    ),
                  ),
                ),
              ),
            ),
          ),
        ),
      ),
    ),
  )

  position_view_of-encoded :
      (content : Bytes)
      → join_words (position_view_encoders view) ≡ ok content
      → position_view_of content ≡ view
  unfolding position_view_of
  position_view_of-encoded content joined = λ i. record {
    nonce =
        unsigned_field content 0 view.nonce
          (nth_word (position_view_encoders view) content position_view-AllWords joined 0 _ refl) i;
    operator_address =
        address_field_lem content 1 view.operator_address operator
          (nth_word (position_view_encoders view) content position_view-AllWords joined 1 _ refl) i;
    token0_address =
        address_field_lem content 2 view.token0_address token0
          (nth_word (position_view_encoders view) content position_view-AllWords joined 2 _ refl) i;
    token1_address =
        address_field_lem content 3 view.token1_address token1
          (nth_word (position_view_encoders view) content position_view-AllWords joined 3 _ refl) i;
    tick_spacing =
        signed_field content 4 view.tick_spacing
          (nth_word (position_view_encoders view) content position_view-AllWords joined 4 _ refl) i;
    tick_lower =
        signed_field content 5 view.tick_lower
          (nth_word (position_view_encoders view) content position_view-AllWords joined 5 _ refl) i;
    tick_upper =
        signed_field content 6 view.tick_upper
          (nth_word (position_view_encoders view) content position_view-AllWords joined 6 _ refl) i;
    liquidity =
        unsigned_field content 7 view.liquidity
          (nth_word (position_view_encoders view) content position_view-AllWords joined 7 _ refl) i;
    fee_growth_inside0_last_x128 =
        unsigned_field content 8 view.fee_growth_inside0_last_x128
          (nth_word (position_view_encoders view) content position_view-AllWords joined 8 _ refl) i;
    fee_growth_inside1_last_x128 =
        unsigned_field content 9 view.fee_growth_inside1_last_x128
          (nth_word (position_view_encoders view) content position_view-AllWords joined 9 _ refl) i;
    tokens_owed0_units =
        unsigned_field content 10 view.tokens_owed0_units
          (nth_word (position_view_encoders view) content position_view-AllWords joined 10 _ refl)
          i;
    tokens_owed1_units =
        unsigned_field content 11 view.tokens_owed1_units
          (nth_word (position_view_encoders view) content position_view-AllWords joined 11 _ refl)
          i;
  }

position_view-IsAddress :
    (raw : LpPositionView)
    → Ensures (lp_position_view raw) (λ view.
      IsAddress view.operator_address
      × IsAddress view.token0_address
      × IsAddress view.token1_address)
unfolding lp_position_view
position_view-IsAddress raw =
    Ensures-bind (address_field raw.operator_address) _ _ (λ operator is_operator.
      Ensures-bind (address_field raw.token0_address) _ _ (λ token0 is_token0.
        Ensures-bind (address_field raw.token1_address) _ _ (λ token1 is_token1.
          let view : LpPositionView = record raw {
            operator_address = operator;
            token0_address = token0;
            token1_address = token1;
          } in
          Ensures-checked (position_fields_fit view && ordered_position_range view)
            Error.validation_error view _
            (λ _. (
              address_field-IsAddress raw.operator_address operator is_operator,
              address_field-IsAddress raw.token0_address token0 is_token0,
              address_field-IsAddress raw.token1_address token1 is_token1,
            )))))

-- A validated view whose fields fit their words reads back from its twelve words, as hexadecimal
-- text with its prefix, as itself.
pub decode_lp_positions_view-encoded :
    (view : LpPositionView) (content : Bytes)
    → lp_position_view view ≡ ok view
    → join_words (position_view_encoders view) ≡ ok content
    → decode_lp_positions_view (with_prefix (hex content)) ≡ ok view
unfolding decode_lp_positions_view
decode_lp_positions_view-encoded view content valid joined =
    let (operator, token0, token1) = Ensures-ok _ _ valid (position_view-IsAddress view) in
    let (bytes, size) =
      join_words-IsBytes (position_view_encoders view) content
        (position_view-AllWords view operator token0 token1) joined in
    rw
      (
        view_bytes-hex content bytes,
        size,
        position_view_of-encoded view operator token0 token1 content joined,
      )
      valid

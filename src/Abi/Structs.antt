-- ===== src/Abi/Structs.antt =====
-- The structs of src/aero_bot/lp_calldata.py, read off the words that a call carries.
use aero_bot.Prelude.{List, [], ◌∷◌, ◌≡◌, refl}
use aero_bot.Prelude.Int.{pos}
use aero_bot.Prelude.Results.{Result, ok}
use aero_bot.Abi.Bytes.{Bytes}
use aero_bot.Abi.Address.{IsAddress}
use aero_bot.Abi.Words.{word, signed_word, address_word, unsigned_at, signed_value, low_address}
use aero_bot.Abi.Params.{LpMintParams, LpDecreaseLiquidityParams}
use aero_bot.Abi.Position.{join_words}
use aero_bot.Abi.Joined.{
  AllWords, nth_word, unsigned_field, signed_field, address_field_lem, word-IsWord,
  signed_word-IsWord, address_word-IsWord,
}

-- The fields of a mint, by the offsets of their words.
abbrev pub mint_of : Bytes → LpMintParams
mint_of content = record {
  token0_address = low_address (unsigned_at content 0);
  token1_address = low_address (unsigned_at content 1);
  tick_spacing = signed_value (unsigned_at content 2);
  tick_lower = signed_value (unsigned_at content 3);
  tick_upper = signed_value (unsigned_at content 4);
  amount0_desired_units = pos (unsigned_at content 5);
  amount1_desired_units = pos (unsigned_at content 6);
  amount0_min_units = pos (unsigned_at content 7);
  amount1_min_units = pos (unsigned_at content 8);
  recipient_address = low_address (unsigned_at content 9);
  deadline = pos (unsigned_at content 10);
  sqrt_price_x96 = pos (unsigned_at content 11);
}

abbrev pub mint_encoders : LpMintParams → List (Result Bytes)
mint_encoders p =
    address_word p.token0_address
    ∷ address_word p.token1_address
    ∷ signed_word p.tick_spacing
    ∷ signed_word p.tick_lower
    ∷ signed_word p.tick_upper
    ∷ word p.amount0_desired_units
    ∷ word p.amount1_desired_units
    ∷ word p.amount0_min_units
    ∷ word p.amount1_min_units
    ∷ address_word p.recipient_address
    ∷ word p.deadline
    ∷ word p.sqrt_price_x96
    ∷ []

pub mint-AllWords :
    (p : LpMintParams) (token0 : IsAddress p.token0_address) (token1 : IsAddress p.token1_address)
    (recipient : IsAddress p.recipient_address)
    → AllWords (mint_encoders p)
mint-AllWords p token0 token1 recipient = (
  address_word-IsWord p.token0_address token0,
  (
    address_word-IsWord p.token1_address token1,
    (
      signed_word-IsWord p.tick_spacing,
      (
        signed_word-IsWord p.tick_lower,
        (
          signed_word-IsWord p.tick_upper,
          (
            word-IsWord p.amount0_desired_units,
            (
              word-IsWord p.amount1_desired_units,
              (
                word-IsWord p.amount0_min_units,
                (
                  word-IsWord p.amount1_min_units,
                  (
                    address_word-IsWord p.recipient_address recipient,
                    (word-IsWord p.deadline, (word-IsWord p.sqrt_price_x96, tt)),
                  ),
                ),
              ),
            ),
          ),
        ),
      ),
    ),
  ),
)

pub mint_of-joined :
    (p : LpMintParams) (content : Bytes) (token0 : IsAddress p.token0_address)
    (token1 : IsAddress p.token1_address) (recipient : IsAddress p.recipient_address)
    → join_words (mint_encoders p) ≡ ok content
    → mint_of content ≡ p
mint_of-joined p content token0 token1 recipient joined = λ i. record {
  token0_address =
      address_field_lem content 0 p.token0_address token0
        (nth_word (mint_encoders p) content (mint-AllWords p token0 token1 recipient) joined 0 _
          refl)
        i;
  token1_address =
      address_field_lem content 1 p.token1_address token1
        (nth_word (mint_encoders p) content (mint-AllWords p token0 token1 recipient) joined 1 _
          refl)
        i;
  tick_spacing =
      signed_field content 2 p.tick_spacing
        (nth_word (mint_encoders p) content (mint-AllWords p token0 token1 recipient) joined 2 _
          refl)
        i;
  tick_lower =
      signed_field content 3 p.tick_lower
        (nth_word (mint_encoders p) content (mint-AllWords p token0 token1 recipient) joined 3 _
          refl)
        i;
  tick_upper =
      signed_field content 4 p.tick_upper
        (nth_word (mint_encoders p) content (mint-AllWords p token0 token1 recipient) joined 4 _
          refl)
        i;
  amount0_desired_units =
      unsigned_field content 5 p.amount0_desired_units
        (nth_word (mint_encoders p) content (mint-AllWords p token0 token1 recipient) joined 5 _
          refl)
        i;
  amount1_desired_units =
      unsigned_field content 6 p.amount1_desired_units
        (nth_word (mint_encoders p) content (mint-AllWords p token0 token1 recipient) joined 6 _
          refl)
        i;
  amount0_min_units =
      unsigned_field content 7 p.amount0_min_units
        (nth_word (mint_encoders p) content (mint-AllWords p token0 token1 recipient) joined 7 _
          refl)
        i;
  amount1_min_units =
      unsigned_field content 8 p.amount1_min_units
        (nth_word (mint_encoders p) content (mint-AllWords p token0 token1 recipient) joined 8 _
          refl)
        i;
  recipient_address =
      address_field_lem content 9 p.recipient_address recipient
        (nth_word (mint_encoders p) content (mint-AllWords p token0 token1 recipient) joined 9 _
          refl)
        i;
  deadline =
      unsigned_field content 10 p.deadline
        (nth_word (mint_encoders p) content (mint-AllWords p token0 token1 recipient) joined 10 _
          refl)
        i;
  sqrt_price_x96 =
      unsigned_field content 11 p.sqrt_price_x96
        (nth_word (mint_encoders p) content (mint-AllWords p token0 token1 recipient) joined 11 _
          refl)
        i;
}

-- The fields of a decrease, by the offsets of their words.
abbrev pub decrease_of : Bytes → LpDecreaseLiquidityParams
decrease_of content = record {
  token_id = pos (unsigned_at content 0);
  liquidity = pos (unsigned_at content 1);
  amount0_min_units = pos (unsigned_at content 2);
  amount1_min_units = pos (unsigned_at content 3);
  deadline = pos (unsigned_at content 4);
}

abbrev pub decrease_encoders : LpDecreaseLiquidityParams → List (Result Bytes)
decrease_encoders p =
    word p.token_id
    ∷ word p.liquidity
    ∷ word p.amount0_min_units
    ∷ word p.amount1_min_units
    ∷ word p.deadline
    ∷ []

pub decrease-AllWords : (p : LpDecreaseLiquidityParams) → AllWords (decrease_encoders p)
decrease-AllWords p = (
  word-IsWord p.token_id,
  (
    word-IsWord p.liquidity,
    (
      word-IsWord p.amount0_min_units,
      (word-IsWord p.amount1_min_units, (word-IsWord p.deadline, tt)),
    ),
  ),
)

pub decrease_of-joined :
    (p : LpDecreaseLiquidityParams) (content : Bytes)
    → join_words (decrease_encoders p) ≡ ok content
    → decrease_of content ≡ p
decrease_of-joined p content joined = λ i. record {
  token_id =
      unsigned_field content 0 p.token_id
        (nth_word (decrease_encoders p) content (decrease-AllWords p) joined 0 _ refl) i;
  liquidity =
      unsigned_field content 1 p.liquidity
        (nth_word (decrease_encoders p) content (decrease-AllWords p) joined 1 _ refl) i;
  amount0_min_units =
      unsigned_field content 2 p.amount0_min_units
        (nth_word (decrease_encoders p) content (decrease-AllWords p) joined 2 _ refl) i;
  amount1_min_units =
      unsigned_field content 3 p.amount1_min_units
        (nth_word (decrease_encoders p) content (decrease-AllWords p) joined 3 _ refl) i;
  deadline =
      unsigned_field content 4 p.deadline
        (nth_word (decrease_encoders p) content (decrease-AllWords p) joined 4 _ refl) i;
}

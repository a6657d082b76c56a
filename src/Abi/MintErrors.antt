-- ===== src/Abi/MintErrors.antt =====
-- When a mint of src/aero_bot/lp_calldata.py is built, and when it raises.
use aero_bot.Prelude.{
  ◌*◌, ◌^◌, Bool, true, false, ◌&&◌, List, [], ◌∷◌, ◌++◌, ◌≡◌, refl, ap, arith, all_of, length,
  length-append, ◌∙◌,
}
use aero_bot.Prelude.Int.{ℤ, pos, ltb_ℤ}
use aero_bot.Prelude.Results.{Result, ok, err, Error, Ensures-ok, Returns}
use aero_bot.Abi.Bytes.{Text, Bytes, hex}
use aero_bot.Abi.Address.{IsAddress}
use aero_bot.Abi.Words.{word, signed_word, address_word, selector_and_words}
use aero_bot.Abi.Words.Laws.{address_word-EncodesAddress}
use aero_bot.Abi.Params.{
  LpMintParams, lp_mint_params, within, non_negative, int24_min, int24_max, mint_fields_fit,
}
use aero_bot.Abi.Position.{join_words, build_lp_mint_calldata, selector}
use aero_bot.Abi.Joined.{join_words-IsBytes}
use aero_bot.Abi.Calls.{mint-IsAddress}
use aero_bot.Abi.Structs.{mint_encoders, mint-AllWords}

-- Whether each encoder returns, and that those that raise raise a value error.
abbrev pub returns : Result Bytes → Bool
returns (ok _) = true
returns (err _) = false

abbrev pub all_return : List (Result Bytes) → Bool
all_return [] = true
all_return (encoded ∷ rest) = returns encoded && all_return rest

abbrev pub RaisesValueError : Result Bytes → Type 0
RaisesValueError (ok _) = Unit
RaisesValueError (err e) = e ≡ Error.value_error

abbrev pub AllRaiseValueError : List (Result Bytes) → Type 0
AllRaiseValueError [] = Unit
AllRaiseValueError (encoded ∷ rest) = RaisesValueError encoded × AllRaiseValueError rest

length-hex : (content : Bytes) → length (hex content) ≡ 2 * length content
unfolding hex
length-hex [] = refl
length-hex (byte ∷ content) = omega (arith, length-hex content)

join_words-returns :
    (encoders : List (Result Bytes))
    → all_return encoders ≡ true
    → (content : Bytes) × (join_words encoders ≡ ok content)
join_words-returns [] h = ([], refl)
join_words-returns (ok first ∷ rest) h =
    let (others, joined) = join_words-returns rest h in (first ++ others, rw joined refl)
join_words-returns (err e ∷ rest) h = cc

join_words-raises :
    (encoders : List (Result Bytes))
    → AllRaiseValueError encoders
    → all_return encoders ≡ false
    → join_words encoders ≡ err Error.value_error
join_words-raises [] only h = cc
join_words-raises (ok first ∷ rest) (_, only) h = rw (join_words-raises rest only h) refl
join_words-raises (err e ∷ rest) (same, only) h = ap err same

word-RaisesValueError : (value : ℤ) → RaisesValueError (word value)
unfolding word
word-RaisesValueError value = ground arith

word-returns :
    (value : ℤ) → non_negative value ≡ true → returns (word value) ≡ ltb_ℤ value (pos (2 ^ 256))
unfolding word
word-returns value h = ground arith

signed_word-returns :
    (value : ℤ) → within int24_min int24_max value ≡ true → returns (signed_word value) ≡ true
unfolding signed_word
signed_word-returns value h = ground arith

signed_word-RaisesValueError : (value : ℤ) → RaisesValueError (signed_word value)
unfolding signed_word
signed_word-RaisesValueError value = ground arith

-- The six amounts of a mint that its model does not bound from above.
abbrev pub mint_amounts_fit : LpMintParams → Bool
mint_amounts_fit p =
    all_of (λ amount. ltb_ℤ amount (pos (2 ^ 256)))
      (p.amount0_desired_units ∷ p.amount1_desired_units ∷ p.amount0_min_units ∷ p.amount1_min_units
        ∷ p.deadline ∷ p.sqrt_price_x96 ∷ [])

address_word-returns : (address : Text) → IsAddress address → returns (address_word address) ≡ true
address_word-returns address h =
    let (found, returned, _) = address_word-EncodesAddress address h in rw returned refl

address_word-RaisesValueError :
    (address : Text) → IsAddress address → RaisesValueError (address_word address)
address_word-RaisesValueError address h =
    let (found, returned, _) = address_word-EncodesAddress address h in
    rw (returned, RaisesValueError) tt

module _ (p : LpMintParams) (token0 : IsAddress p.token0_address)
    (token1 : IsAddress p.token1_address) (recipient : IsAddress p.recipient_address)
    (fit : mint_fields_fit p ≡ true) where
  mint_encoders-return : all_return (mint_encoders p) ≡ mint_amounts_fit p
  unfolding mint_fields_fit
  mint_encoders-return =
      rw
        (
          address_word-returns p.token0_address token0,
          address_word-returns p.token1_address token1,
          address_word-returns p.recipient_address recipient,
          signed_word-returns p.tick_spacing (ground arith),
          signed_word-returns p.tick_lower (ground arith),
          signed_word-returns p.tick_upper (ground arith),
          word-returns p.amount0_desired_units (ground arith),
          word-returns p.amount1_desired_units (ground arith),
          word-returns p.amount0_min_units (ground arith),
          word-returns p.amount1_min_units (ground arith),
          word-returns p.deadline (ground arith),
          word-returns p.sqrt_price_x96 (ground arith),
        )
        refl

  mint_encoders-RaiseValueError : AllRaiseValueError (mint_encoders p)
  mint_encoders-RaiseValueError = (
    address_word-RaisesValueError p.token0_address token0,
    (
      address_word-RaisesValueError p.token1_address token1,
      (
        signed_word-RaisesValueError p.tick_spacing,
        (
          signed_word-RaisesValueError p.tick_lower,
          (
            signed_word-RaisesValueError p.tick_upper,
            (
              word-RaisesValueError p.amount0_desired_units,
              (
                word-RaisesValueError p.amount1_desired_units,
                (
                  word-RaisesValueError p.amount0_min_units,
                  (
                    word-RaisesValueError p.amount1_min_units,
                    (
                      address_word-RaisesValueError p.recipient_address recipient,
                      (
                        word-RaisesValueError p.deadline,
                        (word-RaisesValueError p.sqrt_price_x96, tt),
                      ),
                    ),
                  ),
                ),
              ),
            ),
          ),
        ),
      ),
    ),
  )

  mint_text :
      mint_amounts_fit p ≡ true → Returns (build_lp_mint_calldata p) (λ text. length text ≡ 778)
  unfolding build_lp_mint_calldata selector_and_words
  mint_text amounts =
      let (content, joined) =
        join_words-returns (mint_encoders p) (mint_encoders-return ∙ amounts) in
      let (_, size) =
        join_words-IsBytes (mint_encoders p) content (mint-AllWords p token0 token1 recipient)
          joined in
      rw (joined, Returns)
        (omega (
          arith,
          length-hex content,
          length-append (selector 181 0 125 31) (hex content),
          length-hex (181 ∷ 0 ∷ 125 ∷ 31 ∷ []),
          size,
        ))

-- A mint of validated parameters is built exactly when the four amounts, the deadline and the price
-- are below 2 ^ 256, and then it is 778 characters; otherwise a value error is raised.
pub build_lp_mint_calldata-verdict :
    (p : LpMintParams)
    → lp_mint_params p ≡ ok p
    → (mint_amounts_fit p ≡ true → Returns (build_lp_mint_calldata p) (λ text. length text ≡ 778))
      × (mint_amounts_fit p ≡ false → build_lp_mint_calldata p ≡ err Error.value_error)
unfolding build_lp_mint_calldata
build_lp_mint_calldata-verdict p valid =
    let (token0, token1, recipient, fit) = Ensures-ok _ _ valid (mint-IsAddress p) in
    (
      mint_text p token0 token1 recipient fit,
      (λ large.
          let raised =
            join_words-raises (mint_encoders p)
              (mint_encoders-RaiseValueError p token0 token1 recipient fit)
              (mint_encoders-return p token0 token1 recipient fit ∙ large) in
          rw raised refl),
    )

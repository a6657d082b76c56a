-- ===== src/Abi/Views.antt =====
-- The view decoders of src/aero_bot/lp_calldata.py.
use aero_bot.Prelude.{
  ℕ, zero, suc, ◌+◌, ◌-◌, ◌*◌, ◌/◌, ◌%◌, Bool, not, ◌||◌, List, [], ◌∷◌, ltb, ◌==◌, if◌then◌else◌,
  length,
}
use aero_bot.Prelude.Int.{ℤ}
use aero_bot.Prelude.Results.{Result, ok, err, Error, raise_if, ◌>>=◌, ◌>>◌}
use aero_bot.Abi.Bytes.{Text, Bytes}
use aero_bot.Abi.Address.{normalize_evm_address}
use aero_bot.Abi.Words.{view_bytes, unsigned_at, signed_value, low_address, word_bytes}
use aero_bot.Abi.Params.{within, int24_min, int24_max}

-- The unsigned words of a number of chunks of 32 bytes, from an index on.
abbrev pub words_from : (count index : ℕ) → Bytes → List ℕ
words_from zero index content = []
words_from (suc n) index content = unsigned_at content index ∷ words_from n (index + 1) content

-- `_decode_view_words`
unfoldable pub decode_view_words : Text → ℕ → Result (List ℕ)
decode_view_words result minimum_words = do
  content ← view_bytes result
  if ltb (length content) (minimum_words * word_bytes) || not (length content % word_bytes == 0)
      then err Error.value_error
      else ok (words_from (length content / word_bytes) 0 content)

-- `(word,) = ...` raises on another length.
abbrev pub single_word : List ℕ → Result ℕ
single_word [] = err Error.value_error
single_word (only ∷ []) = ok only
single_word (_ ∷ _ ∷ _) = err Error.value_error

abbrev pub slot0_of : List ℕ → Result (ℕ × ℤ)
slot0_of [] = err Error.value_error
slot0_of (_ ∷ []) = err Error.value_error
slot0_of (sqrt_ratio ∷ raw_tick ∷ _) = do
  let tick = signed_value raw_tick
  raise_if (not (within int24_min int24_max tick)) Error.value_error
  raise_if (not (ltb 0 sqrt_ratio)) Error.value_error
  ok (sqrt_ratio, tick)

unfoldable pub decode_pool_slot0_view : Text → Result (ℕ × ℤ)
decode_pool_slot0_view result = decode_view_words result 2 >>= slot0_of

-- What the ticks view is read for.
pub record TickInfo : Type 0 where
  pub liquidity_gross : ℕ
  pub liquidity_net : ℤ
  pub fee_growth_outside0 : ℕ
  pub fee_growth_outside1 : ℕ

abbrev pub slipstream_tick_info_words : ℕ
slipstream_tick_info_words = 10

abbrev pub tick_info_of : List ℕ → Result TickInfo
tick_info_of [] = err Error.value_error
tick_info_of (_ ∷ []) = err Error.value_error
tick_info_of (_ ∷ _ ∷ []) = err Error.value_error
tick_info_of (_ ∷ _ ∷ _ ∷ []) = err Error.value_error
tick_info_of (_ ∷ _ ∷ _ ∷ _ ∷ []) = err Error.value_error
tick_info_of (gross ∷ net ∷ staked_net ∷ outside0 ∷ outside1 ∷ rest) = do
  raise_if (not (length rest == slipstream_tick_info_words - 5)) Error.value_error
  ok (record {
    liquidity_gross = gross;
    liquidity_net = signed_value net;
    fee_growth_outside0 = outside0;
    fee_growth_outside1 = outside1;
  })

unfoldable pub decode_pool_ticks_view_result : Text → Result TickInfo
decode_pool_ticks_view_result result =
    decode_view_words result slipstream_tick_info_words >>= tick_info_of

unfoldable pub decode_address_view_result : Text → Result Text
decode_address_view_result result = do
  words ← decode_view_words result 1
  only ← single_word words
  normalize_evm_address (low_address only)

unfoldable pub decode_uint_view_result : Text → Result ℕ
decode_uint_view_result result = decode_view_words result 1 >>= single_word

unfoldable pub decode_boolean_view_result : Text → Result Bool
decode_boolean_view_result result = do
  words ← decode_view_words result 1
  only ← single_word words
  ok (not (only == 0))

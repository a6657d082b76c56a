-- ===== src/Abi/Words.antt =====
-- The word encoders of src/aero_bot/lp_calldata.py and the readers of one word.
pub mod Laws
use aero_bot.Prelude.{
  ℕ, zero, suc, ◌+◌, ◌-◌, ◌*◌, ◌^◌, ◌<◌, ◌%◌, Bool, true, false, not, ◌&&◌, ◌||◌, List, [], ◌∷◌,
  ◌++◌, ◌≡◌, refl, ltb, ◌==◌, if◌then◌else◌, length, take, drop, replicate,
}
use aero_bot.Prelude.Int.{ℤ, pos, negsuc, ltb_ℤ}
use aero_bot.Prelude.Results.{Result, ok, err, Error, or_raise, raise_if, ◌>>=◌, ◌>>◌}
use aero_bot.Abi.Bytes.{Text, Bytes, to_bytes, from_bytes, hex, from_hex}
use aero_bot.Abi.Address.{normalize_evm_address, with_prefix}

abbrev pub word_bytes : ℕ
word_bytes = 32

-- `_word`: `int.to_bytes` of a value in range.
unfoldable pub word : ℤ → Result Bytes
word (negsuc _) = err Error.value_error
word (pos n) = if ltb n (2 ^ 256) then ok (to_bytes word_bytes n) else err Error.value_error

-- `_signed_word`: a negative number -(n + 1) is written as 2 ^ 256 - (n + 1).
unfoldable pub signed_word : ℤ → Result Bytes
signed_word (pos n) = if ltb n (2 ^ 255) then ok (to_bytes word_bytes n) else err Error.value_error
signed_word (negsuc n) =
    if ltb n (2 ^ 255) then ok (to_bytes word_bytes (2 ^ 256 - suc n)) else err Error.value_error

-- `str.rjust`
abbrev pub rjust : Text → ℕ → ℕ → Text
rjust text width fill = replicate (width - length text) fill ++ text

-- `_address_word`
unfoldable pub address_word : Text → Result Bytes
address_word address = do
  normalized ← normalize_evm_address address
  or_raise (from_hex (rjust (drop 2 normalized) 64 48)) Error.value_error

-- `_selector_and_words`
unfoldable pub selector_and_words : Text → Bytes → Text
selector_and_words selector words = with_prefix (selector ++ hex words)

-- The bytes of the word at an index: `data[index * 32 : (index + 1) * 32]`.
abbrev pub slice : Bytes → ℕ → Bytes
slice content index = take word_bytes (drop (index * word_bytes) content)

unfoldable pub unsigned_at : Bytes → ℕ → ℕ
unsigned_at content index = from_bytes (slice content index)

-- `int.from_bytes(word, "big", signed=True)` of a word with the given unsigned value.
unfoldable pub signed_value : ℕ → ℤ
signed_value n = if ltb n (2 ^ 255) then pos n else negsuc (2 ^ 256 - suc n)

-- `"0x" + format(n & ((1 << 160) - 1), "040x")`: forty digits are those of twenty bytes.
unfoldable pub low_address : ℕ → Text
low_address n = with_prefix (hex (to_bytes 20 (n % 2 ^ 160)))

-- `result.startswith("0x")`, then `bytes.fromhex(result[2:])`.
unfoldable pub view_bytes : Text → Result Bytes
view_bytes [] = err Error.value_error
view_bytes (c ∷ []) = err Error.value_error
view_bytes (c ∷ d ∷ text) =
    if (c == 48) && (d == 120)
    then or_raise (from_hex text) Error.value_error
    else err Error.value_error

-- ===== src/Abi/TickTrip.antt =====
-- The ticks view of src/aero_bot/lp_calldata.py, whose layout is exactly ten words.
use aero_bot.Prelude.{
  ℕ, zero, suc, ◌+◌, ◌*◌, ◌<◌, true, false, some, List, ◌∷◌, ◌≡◌, ◌≢◌, refl, ap, arith, ltb, ◌==◌,
  length, get_elem?, Bool-cases, inl, inr,
}
use aero_bot.Prelude.Int.{ℤ, pos, pos_part}
use aero_bot.Prelude.Results.{Result, ok, err, Error}
use aero_bot.Abi.Bytes.{Bytes, IsBytes, hex}
use aero_bot.Abi.Address.{with_prefix}
use aero_bot.Abi.Words.{word, signed_word, unsigned_at, word_bytes}
use aero_bot.Abi.Position.{join_words}
use aero_bot.Abi.Views.{
  decode_view_words, words_from, decode_pool_ticks_view_result, tick_info_of, TickInfo,
}
use aero_bot.Abi.ViewTrip.{view_words-joined}
use aero_bot.Abi.Joined.{
  AllWords, nth_word, join_words-IsBytes, unsigned_field, signed_field, view_bytes-hex, word-IsWord,
  signed_word-IsWord,
}

-- The words of a tick, with those that follow the fifth left open.
abbrev pub tick_encoders : TickInfo → (staked_net : ℤ) → List (Result Bytes) → List (Result Bytes)
tick_encoders tick staked_net others =
    word (pos tick.liquidity_gross)
    ∷ signed_word tick.liquidity_net
    ∷ signed_word staked_net
    ∷ word (pos tick.fee_growth_outside0)
    ∷ word (pos tick.fee_growth_outside1)
    ∷ others

view_words-short :
    (content : Bytes) (minimum_words : ℕ)
    → IsBytes content
    → length content < minimum_words * word_bytes
    → decode_view_words (with_prefix (hex content)) minimum_words ≡ err Error.value_error
unfolding decode_view_words
view_words-short content minimum_words bytes short =
    let missing : ltb (length content) (minimum_words * word_bytes) ≡ true = ground arith in
    rw (view_bytes-hex content bytes, missing) refl

length-words_from :
    (count index : ℕ) (content : Bytes) → length (words_from count index content) ≡ count
length-words_from zero index content = refl
length-words_from (suc count) index content = ap suc (length-words_from count (index + 1) content)

module _ (tick : TickInfo) (staked_net : ℤ) (others : List (Result Bytes)) (content : Bytes)
    (other_words : AllWords others)
    (joined : join_words (tick_encoders tick staked_net others) ≡ ok content) where
  tick_words : AllWords (tick_encoders tick staked_net others)
  tick_words = (
    word-IsWord (pos tick.liquidity_gross),
    (
      signed_word-IsWord tick.liquidity_net,
      (
        signed_word-IsWord staked_net,
        (
          word-IsWord (pos tick.fee_growth_outside0),
          (word-IsWord (pos tick.fee_growth_outside1), other_words),
        ),
      ),
    ),
  )

  tick_unsigned :
      (index n : ℕ)
      → get_elem? (tick_encoders tick staked_net others) index ≡ some (word (pos n))
      → unsigned_at content index ≡ n
  tick_unsigned index n found = ap pos_part (
      unsigned_field content index (pos n)
        (nth_word (tick_encoders tick staked_net others) content tick_words joined index _ found))

  tick_fields :
      length others ≡ 5
      → tick_info_of (words_from (length (tick_encoders tick staked_net others)) 0 content)
        ≡ ok tick
  tick_fields five =
      let rest_five : (length (words_from (length others) 5 content) == 5) ≡ true =
        ground (arith, length-words_from (length others) 5 content) in
      rw (rest_five) (λ i. ok (record {
        liquidity_gross = tick_unsigned 0 tick.liquidity_gross refl i;
        liquidity_net =
            signed_field content 1 tick.liquidity_net
              (nth_word (tick_encoders tick staked_net others) content tick_words joined 1 _ refl)
              i;
        fee_growth_outside0 = tick_unsigned 3 tick.fee_growth_outside0 refl i;
        fee_growth_outside1 = tick_unsigned 4 tick.fee_growth_outside1 refl i;
      }))

  tick_refused :
      length others ≢ 5
      → tick_info_of (words_from (length (tick_encoders tick staked_net others)) 0 content)
        ≡ err Error.value_error
  tick_refused other =
      let not_five : (length (words_from (length others) 5 content) == 5) ≡ false =
        ground (arith, length-words_from (length others) 5 content) in
      rw not_five refl

-- A ticks view with its first five words, a signed stakedLiquidityNet between the liquidities and
-- the fee growths, reads back as the tick if exactly five words follow, and otherwise raises.
pub decode_pool_ticks_view_result-encoded :
    (tick : TickInfo) (staked_net : ℤ) (others : List (Result Bytes)) (content : Bytes)
    → AllWords others
    → join_words (tick_encoders tick staked_net others) ≡ ok content
    → (length others ≡ 5 → decode_pool_ticks_view_result (with_prefix (hex content)) ≡ ok tick)
      × (length others ≢ 5
          → decode_pool_ticks_view_result (with_prefix (hex content)) ≡ err Error.value_error)
unfolding decode_pool_ticks_view_result
decode_pool_ticks_view_result-encoded tick staked_net others content other_words joined =
    let words = tick_words tick staked_net others content other_words joined in
    let encoders = tick_encoders tick staked_net others in
    let (bytes, size) = join_words-IsBytes encoders content words joined in
    (
      (λ five.
          rw (view_words-joined encoders content 10 words joined (omega arith))
            (tick_fields tick staked_net others content other_words joined five)),
      (λ other. elim (Bool-cases (ltb (length others) 5)) [
        | inl short ↦ rw (view_words-short content 10 bytes (ground arith)) refl
        | inr long ↦
            rw (view_words-joined encoders content 10 words joined (ground arith))
              (tick_refused tick staked_net others content other_words joined other)
      ]),
    )

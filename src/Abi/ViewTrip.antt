-- ===== src/Abi/ViewTrip.antt =====
-- The view decoders of src/aero_bot/lp_calldata.py on words that its encoders wrote.
use aero_bot.Prelude.{
  ℕ, ◌*◌, ◌/◌, ◌%◌, ◌<◌, ◌≤◌, true, false, List, [], ◌∷◌, ◌≡◌, refl, ap, arith, ltb, ◌==◌, length,
  ◌∙◌, sym, inl, inr,
}
use aero_bot.Prelude.Int.{ℤ, pos, pos_part}
use aero_bot.Prelude.Results.{Result, ok, err, Error, Result-cases}
use mathlib.Core.List.{append-nil}
use aero_bot.Abi.Bytes.{Text, Bytes, IsBytes, hex}
use aero_bot.Abi.Address.{
  with_prefix, normalize_evm_address, normalize-IsAddress, normalize-idempotent,
}
use aero_bot.Abi.Words.{word, signed_word, address_word, unsigned_at, signed_value, word_bytes}
use aero_bot.Abi.Params.{within, int24_min, int24_max}
use aero_bot.Abi.Position.{join_words}
use aero_bot.Abi.Views.{
  decode_view_words, words_from, decode_uint_view_result, decode_address_view_result,
  decode_pool_slot0_view,
}
use aero_bot.Abi.Joined.{
  AllWords, nth_word, join_words-IsBytes, unsigned_field, signed_field, address_field_lem,
  view_bytes-hex, word-IsWord, signed_word-IsWord, address_word-IsWord,
}

decode_view_words-whole :
    (content : Bytes) (count minimum_words : ℕ)
    → IsBytes content
    → length content ≡ count * word_bytes
    → minimum_words ≤ count
    → decode_view_words (with_prefix (hex content)) minimum_words ≡ ok (words_from count 0 content)
unfolding decode_view_words
decode_view_words-whole content count minimum_words bytes size enough =
    let whole : length content % word_bytes ≡ 0 = omega arith in
    let chunks : length content / word_bytes ≡ count = omega arith in
    let not_short : ltb (length content) (minimum_words * word_bytes) ≡ false = ground arith in
    let aligned : (length content % word_bytes == 0) ≡ true = ground arith in
    rw (view_bytes-hex content bytes, not_short, aligned, chunks) refl

-- The words of a view whose encoders returned.
pub view_words-joined :
    (encoders : List (Result Bytes)) (content : Bytes) (minimum_words : ℕ)
    → AllWords encoders
    → join_words encoders ≡ ok content
    → minimum_words ≤ length encoders
    → decode_view_words (with_prefix (hex content)) minimum_words
      ≡ ok (words_from (length encoders) 0 content)
view_words-joined encoders content minimum_words words joined enough =
    let (bytes, size) = join_words-IsBytes encoders content words joined in
    decode_view_words-whole content (length encoders) minimum_words bytes size enough

single_joined :
    (encoded : Result Bytes) (content : Bytes)
    → encoded ≡ ok content
    → join_words (encoded ∷ []) ≡ ok content
single_joined encoded content e = rw e (ap ok (append-nil content))

ok_is_not_err : {A : Type 0} (a : A) (e : Error) → ¬ (ok a ≡ err e)
ok_is_not_err a e h = cc

normal_word :
    (text address : Text)
    → normalize_evm_address text ≡ ok address
    → address_word address ≡ address_word text
unfolding address_word
normal_word text address e =
    rw (e, normalize-idempotent address (normalize-IsAddress text address e)) refl

abnormal_word :
    (text : Text) (raised : Error)
    → normalize_evm_address text ≡ err raised
    → address_word text ≡ err raised
unfolding address_word
abnormal_word text raised e = rw e refl

-- A number below 2 ^ 256 reads back from its word.
pub decode_uint_view_result-word :
    (n : ℕ) (content : Bytes)
    → word (pos n) ≡ ok content
    → decode_uint_view_result (with_prefix (hex content)) ≡ ok n
unfolding decode_uint_view_result
decode_uint_view_result-word n content h =
    let encoders : List (Result Bytes) = word (pos n) ∷ [] in
    let words : AllWords encoders = (word-IsWord (pos n), tt) in
    let joined = single_joined (word (pos n)) content h in
    rw (view_words-joined encoders content 1 words joined (omega arith)) (
      ap ok (
        ap pos_part
          (unsigned_field content 0 (pos n) (nth_word encoders content words joined 0 _ refl))))

-- The word of an address, of either case, reads back as the normalized address.
pub decode_address_view_result-word :
    (text content : Bytes)
    → address_word text ≡ ok content
    → decode_address_view_result (with_prefix (hex content)) ≡ normalize_evm_address text
unfolding decode_address_view_result
decode_address_view_result-word text content h = elim (Result-cases (normalize_evm_address text)) [
  | inr (raised, e) ↦ absurd (ok_is_not_err content raised (sym h ∙ abnormal_word text raised e))
  | inl (address, e) ↦
      let normal = normalize-IsAddress text address e in
      let encoders : List (Result Bytes) = address_word address ∷ [] in
      let words : AllWords encoders = (address_word-IsWord address normal, tt) in
      let joined = single_joined (address_word address) content (normal_word text address e ∙ h) in
      let back =
        address_field_lem content 0 address normal
          (nth_word encoders content words joined 0 _ refl) in
      rw
        (
          view_words-joined encoders content 1 words joined (omega arith),
          back,
          normalize-idempotent address normal,
          e,
        )
        refl
]

-- A slot0 view: a positive price below 2 ^ 256, a tick of 24 bits and any further words read back
-- as the price and the tick.
pub decode_pool_slot0_view-encoded :
    (sqrt_ratio : ℕ) (tick : ℤ) (others : List (Result Bytes)) (content : Bytes)
    → 0 < sqrt_ratio
    → within int24_min int24_max tick ≡ true
    → AllWords others
    → join_words (word (pos sqrt_ratio) ∷ signed_word tick ∷ others) ≡ ok content
    → decode_pool_slot0_view (with_prefix (hex content)) ≡ ok (sqrt_ratio, tick)
unfolding decode_pool_slot0_view
decode_pool_slot0_view-encoded sqrt_ratio tick others content positive fits other_words joined =
    let words : AllWords (word (pos sqrt_ratio) ∷ signed_word tick ∷ others) =
      (word-IsWord (pos sqrt_ratio), (signed_word-IsWord tick, other_words)) in
    let encoders : List (Result Bytes) = word (pos sqrt_ratio) ∷ signed_word tick ∷ others in
    let price : unsigned_at content 0 ≡ sqrt_ratio = ap pos_part (
      unsigned_field content 0 (pos sqrt_ratio)
        (nth_word encoders content words joined 0 _ refl)) in
    let signed : signed_value (unsigned_at content 1) ≡ tick =
      signed_field content 1 tick (nth_word encoders content words joined 1 _ refl) in
    let some_price : ltb 0 sqrt_ratio ≡ true = ground arith in
    rw
      (
        view_words-joined encoders content 2 words joined (omega arith),
        signed,
        price,
        fits,
        some_price,
      )
      refl

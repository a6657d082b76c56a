-- ===== src/Abi/Words/Laws.antt =====
-- What one word of src/aero_bot/lp_calldata.py reads back as.
use aero_bot.Prelude.{
  ℕ, zero, suc, ◌+◌, ◌-◌, ◌*◌, ◌^◌, ◌<◌, ◌%◌, ◌/◌, true, false, [], ◌∷◌, ◌++◌, ◌≡◌, refl, ap, arith,
  ltb, subst, length, replicate, all_of, some, Bool-cases, inl, inr, ◌∙◌, sym,
}
use aero_bot.Prelude.Int.{ℤ, pos, negsuc}
use aero_bot.Prelude.Results.{ok, Ensures, or_raise, Error}
use aero_bot.Abi.Bytes.{
  Text, Bytes, IsBytes, to_bytes, from_bytes, hex, from_hex, from_bytes-to_bytes,
  to_bytes-from_bytes, from_bytes-bound, length-to_bytes, to_bytes-IsBytes, digit_value, hex_digit,
  from_hex-pair, is_space, from_hex_after, from_bytes_after,
}
use aero_bot.Abi.Address.{
  IsAddress, is_low_digit, normalize-idempotent, normalize_evm_address, with_prefix,
}
use aero_bot.Abi.Words.{word, signed_word, address_word, signed_value, low_address, word_bytes}

-- What every encoder returns: 32 bytes.
abbrev pub IsWord : Bytes → Type 0
IsWord content = (length content ≡ word_bytes) × IsBytes content

abbrev pub EncodesUnsigned : ℤ → Bytes → Type 0
EncodesUnsigned value content = IsWord content × (pos (from_bytes content) ≡ value)

abbrev pub EncodesSigned : ℤ → Bytes → Type 0
EncodesSigned value content = IsWord content × (signed_value (from_bytes content) ≡ value)

to_bytes-IsWord : (n : ℕ) → IsWord (to_bytes word_bytes n)
to_bytes-IsWord n = (length-to_bytes word_bytes n, to_bytes-IsBytes word_bytes n)

pub word-EncodesUnsigned : (value : ℤ) → Ensures (word value) (EncodesUnsigned value)
unfolding word
word-EncodesUnsigned (negsuc _) = tt
word-EncodesUnsigned (pos n) = elim (Bool-cases (ltb n (2 ^ 256))) [
  | inl e ↦
      rw (e, Ensures) (to_bytes-IsWord n, ap pos (from_bytes-to_bytes word_bytes n (ground arith)))
  | inr e ↦ rw (e, Ensures) tt
]

signed_value-to_bytes :
    (n : ℕ) → n < 2 ^ 256 → signed_value (from_bytes (to_bytes word_bytes n)) ≡ signed_value n
signed_value-to_bytes n h = ap signed_value (from_bytes-to_bytes word_bytes n h)

signed_value-pos : (n : ℕ) → n < 2 ^ 255 → signed_value n ≡ pos n
unfolding signed_value
signed_value-pos n h = ground arith

signed_value-neg : (n : ℕ) → n < 2 ^ 255 → signed_value (2 ^ 256 - suc n) ≡ negsuc n
unfolding signed_value
signed_value-neg n h = ground arith

pub signed_word-EncodesSigned : (value : ℤ) → Ensures (signed_word value) (EncodesSigned value)
unfolding signed_word
signed_word-EncodesSigned (pos n) = elim (Bool-cases (ltb n (2 ^ 255))) [
  | inl e ↦
      rw (e, Ensures)
        (
          to_bytes-IsWord n,
          signed_value-to_bytes n (ground arith) ∙ signed_value-pos n (ground arith),
        )
  | inr e ↦ rw (e, Ensures) tt
]
signed_word-EncodesSigned (negsuc n) = elim (Bool-cases (ltb n (2 ^ 255))) [
  | inl e ↦
      rw (e, Ensures)
        (
          to_bytes-IsWord (2 ^ 256 - suc n),
          signed_value-to_bytes (2 ^ 256 - suc n) (omega arith) ∙ signed_value-neg n (ground arith),
        )
  | inr e ↦ rw (e, Ensures) tt
]

-- Lower-case digits are the text of the bytes that they spell.
pub record Spells (text : Text) (content : Bytes) : Type 0 where
  pub read : from_hex text ≡ some content
  pub shown : hex content ≡ text
  pub bytes : IsBytes content

low_digit :
    (c : ℕ)
    → is_low_digit c ≡ true
    → (v : ℕ) × (digit_value c ≡ some v) × (hex_digit v ≡ c) × (v < 16)
unfolding is_low_digit digit_value hex_digit
low_digit c h = elim (Bool-cases (ltb c 58)) [
  | inl e ↦ (c - 48, ground arith, ground arith, ground arith)
  | inr e ↦ (c - 87, ground arith, ground arith, ground arith)
]

low-is_space : (c : ℕ) → is_low_digit c ≡ true → is_space c ≡ false
unfolding is_low_digit is_space
low-is_space c h = ground arith

spell-pair :
    (c d : ℕ) (text : Text) (content : Bytes)
    → is_low_digit c ≡ true
    → is_low_digit d ≡ true
    → Spells text content
    → (byte : ℕ) × Spells (c ∷ d ∷ text) (byte ∷ content)
unfolding hex
spell-pair c d text content c_low d_low rest =
    let (high, high_read, high_shown, high_small) = low_digit c c_low in
    let (low, low_read, low_shown, low_small) = low_digit d d_low in
    let first : (high * 16 + low) / 16 ≡ high = omega arith in
    let second : (high * 16 + low) % 16 ≡ low = omega arith in
    (
      high * 16 + low,
      record {
        read =
            from_hex-pair c d high low text content (low-is_space c c_low) high_read low_read
              rest.read;
        shown = rw (first, second, high_shown, low_shown, rest.shown) refl;
        bytes = (omega arith, rest.bytes);
      },
    )

pub spell :
    (n : ℕ) (text : Text)
    → length text ≡ n + n
    → all_of is_low_digit text ≡ true
    → (content : Bytes) × (length content ≡ n) × Spells text content
unfolding from_hex_after hex
spell zero [] e h = ([], refl, record { read = refl; shown = refl; bytes = tt })
spell zero (c ∷ text) e h = absurd (omega arith)
spell (suc n) [] e h = absurd (omega arith)
spell (suc n) (c ∷ []) e h = absurd (omega arith)
spell (suc n) (c ∷ d ∷ text) e h =
    let (content, size, spelled) = spell n text (omega arith) (ground arith) in
    let (byte, whole) = spell-pair c d text content (ground arith) (ground arith) spelled in
    (byte ∷ content, ap suc size, whole)

digits_of_zeros :
    (n : ℕ) (text : Text) (content : Bytes)
    → from_hex text ≡ some content
    → from_hex (hex (replicate n 0) ++ text) ≡ some (replicate n 0 ++ content)
unfolding hex is_space digit_value hex_digit
digits_of_zeros zero text content h = h
digits_of_zeros (suc n) text content h =
    from_hex-pair 48 48 0 0 (hex (replicate n 0) ++ text) (replicate n 0 ++ content) refl refl refl
      (digits_of_zeros n text content h)

-- The word of an address: twelve zero bytes and the twenty that its digits spell.
pub record EncodesAddress (address : Text) (content : Bytes) : Type 0 where
  pub tail : Bytes
  pub padded : content ≡ replicate 12 0 ++ tail
  pub twenty : length tail ≡ 20
  pub spelled : with_prefix (hex tail) ≡ address
  pub bytes : IsBytes tail

found :
    (digits tail address : Text)
    → address ≡ with_prefix digits
    → length digits ≡ 40
    → from_hex digits ≡ some tail
    → normalize_evm_address address ≡ ok address
    → address_word address ≡ ok (replicate 12 0 ++ tail)
unfolding address_word hex hex_digit
found digits tail address spelled forty read normal =
    rw (normal, spelled, forty)
      (ap (λ o. or_raise o Error.value_error) (digits_of_zeros 12 digits tail read))

pub address_word-EncodesAddress :
    (address : Text)
    → IsAddress address
    → (content : Bytes) × (address_word address ≡ ok content) × EncodesAddress address content
unfolding address_word
address_word-EncodesAddress address h =
    let (tail, twenty, spelled) = spell 20 h.digits h.forty h.low in
    (
      replicate 12 0 ++ tail,
      found h.digits tail address h.spelled h.forty spelled.read (normalize-idempotent address h),
      record {
        tail = tail;
        padded = refl;
        twenty = twenty;
        bytes = spelled.bytes;
        spelled = ap with_prefix (spelled.shown) ∙ sym h.spelled;
      },
    )

zeros-IsBytes : (tail : Bytes) → IsBytes tail → IsBytes (replicate 12 0 ++ tail)
zeros-IsBytes tail h = ground arith

pub EncodesAddress-IsWord :
    (address : Text) (content : Bytes) → EncodesAddress address content → IsWord content
EncodesAddress-IsWord address content h =
    rw (h.padded) (omega (arith, h.twenty), zeros-IsBytes h.tail h.bytes)

low_of_tail :
    (tail : Bytes)
    → length tail ≡ 20
    → IsBytes tail
    → low_address (from_bytes (replicate 12 0 ++ tail)) ≡ with_prefix (hex tail)
unfolding low_address from_bytes_after
low_of_tail tail twenty bytes =
    let small : from_bytes tail < 2 ^ 160 =
      subst (λ n. from_bytes tail < 256 ^ n) twenty (from_bytes-bound tail bytes) in
    let kept : from_bytes tail % 2 ^ 160 ≡ from_bytes tail = omega arith in
    let back : to_bytes 20 (from_bytes tail) ≡ tail =
      subst (λ n. to_bytes n (from_bytes tail) ≡ tail) twenty (to_bytes-from_bytes tail bytes) in
    ap (λ n. with_prefix (hex (to_bytes 20 n))) kept
    ∙ ap (λ content. with_prefix (hex content)) back

pub low_address-EncodesAddress :
    (address : Text) (content : Bytes)
    → EncodesAddress address content
    → low_address (from_bytes content) ≡ address
low_address-EncodesAddress address content h =
    rw (h.padded) (low_of_tail h.tail h.twenty h.bytes ∙ h.spelled)

-- ===== src/Abi/Address.antt =====
-- `normalize_evm_address` of src/aero_bot/domain.py, on text as a list of character codes.
use aero_bot.Prelude.{
  ℕ, ◌+◌, Bool, true, false, ◌&&◌, ◌||◌, [], ◌∷◌, map, ◌≡◌, refl, ap, arith, ◌==◌, if◌then◌else◌,
  length, all_of, Bool-cases, inl, inr, ◌∙◌, length-map, subst, sym,
}
use aero_bot.Prelude.Results.{Result, ok, err, Error, ok-injective}
use aero_bot.Abi.Bytes.{Text, in_span}

unfoldable pub is_hex_digit : ℕ → Bool
is_hex_digit c = in_span 48 57 c || in_span 97 102 c || in_span 65 70 c

-- `str.lower` of a character of an address.
unfoldable pub lower : ℕ → ℕ
lower c = if in_span 65 90 c then c + 32 else c

abbrev pub with_prefix : Text → Text
with_prefix digits = 48 ∷ 120 ∷ digits

-- `^0x[0-9a-fA-F]{40}$` matches the whole text.
unfoldable pub is_evm_address : Text → Bool
is_evm_address [] = false
is_evm_address (c ∷ []) = false
is_evm_address (c ∷ d ∷ digits) =
    (c == 48) && (d == 120) && (length digits == 40) && all_of is_hex_digit digits

unfoldable pub normalize_evm_address : Text → Result Text
normalize_evm_address text =
    if is_evm_address text then ok (map lower text) else err Error.value_error

-- A lower-case digit.
unfoldable pub is_low_digit : ℕ → Bool
is_low_digit c = in_span 48 57 c || in_span 97 102 c

lower-is_low_digit : (c : ℕ) → is_hex_digit c ≡ true → is_low_digit (lower c) ≡ true
unfolding lower is_hex_digit is_low_digit
lower-is_low_digit c h = ground arith

lower-low : (c : ℕ) → is_low_digit c ≡ true → lower c ≡ c
unfolding lower is_low_digit
lower-low c h = ground arith

low-is_hex_digit : (c : ℕ) → is_low_digit c ≡ true → is_hex_digit c ≡ true
unfolding is_hex_digit is_low_digit
low-is_hex_digit c h = ground arith

-- A normalized address: the prefix and 40 lower-case digits.
pub record IsAddress (text : Text) : Type 0 where
  pub digits : Text
  pub spelled : text ≡ with_prefix digits
  pub forty : length digits ≡ 40
  pub low : all_of is_low_digit digits ≡ true

all_of-map-lower :
    (digits : Text)
    → all_of is_hex_digit digits ≡ true
    → all_of is_low_digit (map lower digits) ≡ true
all_of-map-lower [] h = refl
all_of-map-lower (c ∷ digits) h = ground (arith, lower-is_low_digit c, all_of-map-lower digits)

map-lower-low : (digits : Text) → all_of is_low_digit digits ≡ true → map lower digits ≡ digits
map-lower-low [] h = refl
map-lower-low (c ∷ digits) h = ground (arith, lower-low c, map-lower-low digits)

low-all_hex :
    (digits : Text) → all_of is_low_digit digits ≡ true → all_of is_hex_digit digits ≡ true
low-all_hex [] h = refl
low-all_hex (c ∷ digits) h = ground (arith, low-is_hex_digit c, low-all_hex digits)

evm_address_parts :
    (c d : ℕ) (digits : Text)
    → is_evm_address (c ∷ d ∷ digits) ≡ true
    → (c ≡ 48) × (d ≡ 120) × (length digits ≡ 40) × (all_of is_hex_digit digits ≡ true)
unfolding is_evm_address
evm_address_parts c d digits h = ground arith

lowered :
    (c d : ℕ) (digits : Text)
    → is_evm_address (c ∷ d ∷ digits) ≡ true
    → IsAddress (lower c ∷ lower d ∷ map lower digits)
unfolding lower
lowered c d digits h =
    let (zero_first, x_next, forty, hexadecimal) = evm_address_parts c d digits h in
    record {
      digits = map lower digits;
      spelled = rw (zero_first, x_next) refl;
      forty = length-map digits lower ∙ forty;
      low = all_of-map-lower digits hexadecimal;
    }

pub normalize-IsAddress :
    (text address : Text) → normalize_evm_address text ≡ ok address → IsAddress address
unfolding normalize_evm_address is_evm_address
normalize-IsAddress [] address h = cc
normalize-IsAddress (c ∷ []) address h = cc
normalize-IsAddress (c ∷ d ∷ digits) address h =
    elim (Bool-cases (is_evm_address (c ∷ d ∷ digits))) [
      | inl e ↦
          subst IsAddress
            (ok-injective (
              sym (ap (λ b. if b then ok (map lower (c ∷ d ∷ digits)) else err Error.value_error) e)
              ∙ h))
            (lowered c d digits e)
      | inr e ↦ cc
    ]

pub normalize-idempotent :
    (address : Text) → IsAddress address → normalize_evm_address address ≡ ok address
unfolding normalize_evm_address is_evm_address lower
normalize-idempotent address h =
    rw (h.spelled, h.forty, low-all_hex h.digits h.low, map-lower-low h.digits h.low) refl

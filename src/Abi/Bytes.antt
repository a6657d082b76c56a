-- ===== src/Abi/Bytes.antt =====
-- Python's byte strings and hexadecimal text, as src/aero_bot/lp_calldata.py uses them.
use aero_bot.Prelude.{
  ℕ, suc, zero, ◌+◌, ◌-◌, ◌*◌, ◌/◌, ◌%◌, ◌<◌, ◌^◌, Bool, true, false, ◌&&◌, ◌||◌, Option, none,
  some, List, [], ◌∷◌, ◌++◌, ◌≡◌, refl, ap, arith, ltb, leb, ◌==◌, if◌then◌else◌, length,
  length-append, ◌∙◌,
}
use mathlib.Core.List.{append-nil, append_assoc}

-- A list of character codes, and a list of bytes.
abbrev pub Text : Type 0
Text = List ℕ

abbrev pub Bytes : Type 0
Bytes = List ℕ

-- `int.to_bytes(n, "big")` of a value that fits, and `int.from_bytes(content, "big")`.
unfoldable pub to_bytes : ℕ → ℕ → Bytes
to_bytes zero value = []
to_bytes (suc n) value = to_bytes n (value / 256) ++ value % 256 ∷ []

unfoldable pub from_bytes_after : ℕ → Bytes → ℕ
from_bytes_after high [] = high
from_bytes_after high (byte ∷ content) = from_bytes_after (high * 256 + byte) content

abbrev pub from_bytes : Bytes → ℕ
from_bytes = from_bytes_after 0

-- The lower-case digit of a value below 16, and the value of a digit of either case.
unfoldable pub hex_digit : ℕ → ℕ
hex_digit n = if ltb n 10 then 48 + n else 87 + n

abbrev pub in_span : ℕ → ℕ → ℕ → Bool
in_span low high c = leb low c && leb c high

unfoldable pub digit_value : ℕ → Option ℕ
digit_value c =
    if in_span 48 57 c
    then some (c - 48)
    else if in_span 97 102 c
    then some (c - 87)
    else if in_span 65 70 c
    then some (c - 55)
    else none

-- `bytes.hex`
unfoldable pub hex : Bytes → Text
hex [] = []
hex (byte ∷ content) = hex_digit (byte / 16) ∷ hex_digit (byte % 16) ∷ hex content

unfoldable pub is_space : ℕ → Bool
is_space c = (c == 32) || in_span 9 13 c

-- `bytes.fromhex`: pairs of digits, with white space allowed before a pair. The first argument is
-- the first digit of a pair whose second comes next.
unfoldable pub from_hex_after : Option ℕ → Text → Option Bytes
from_hex_after none [] = some []
from_hex_after (some _) [] = none
from_hex_after none (c ∷ text) = elim (is_space c) [
  | true ↦ from_hex_after none text
  | false ↦ elim (digit_value c) [ none ↦ none | some high ↦ from_hex_after (some high) text ]
]
from_hex_after (some high) (c ∷ text) = elim (digit_value c) [
  | none ↦ none
  | some low ↦ elim (from_hex_after none text) [
    | none ↦ none
    | some content ↦ some ((high * 16 + low) ∷ content)
  ]
]

abbrev pub from_hex : Text → Option Bytes
from_hex = from_hex_after none

-- Every entry is a byte.
abbrev pub IsBytes : Bytes → Type 0
IsBytes [] = Unit
IsBytes (byte ∷ content) = (byte < 256) × IsBytes content

pub length-to_bytes : (n value : ℕ) → length (to_bytes n value) ≡ n
unfolding to_bytes
length-to_bytes zero value = refl
length-to_bytes (suc n) value = omega (
  arith,
  length-to_bytes n (value / 256),
  length-append (to_bytes n (value / 256)) (value % 256 ∷ []),
)

pub IsBytes-append : (xs ys : Bytes) → IsBytes xs → IsBytes ys → IsBytes (xs ++ ys)
IsBytes-append [] ys h k = k
IsBytes-append (x ∷ xs) ys h k = (h.0, IsBytes-append xs ys h.1 k)

pub to_bytes-IsBytes : (n value : ℕ) → IsBytes (to_bytes n value)
unfolding to_bytes
to_bytes-IsBytes zero value = tt
to_bytes-IsBytes (suc n) value =
    IsBytes-append (to_bytes n (value / 256)) (value % 256 ∷ []) (to_bytes-IsBytes n (value / 256))
      (omega arith, tt)

from_bytes-append_byte :
    (high : ℕ) (xs : Bytes) (byte : ℕ)
    → from_bytes_after high (xs ++ byte ∷ []) ≡ from_bytes_after high xs * 256 + byte
unfolding from_bytes_after
from_bytes-append_byte high [] byte = refl
from_bytes-append_byte high (x ∷ xs) byte = from_bytes-append_byte (high * 256 + x) xs byte

-- A value that fits reads back.
pub from_bytes-to_bytes : (n value : ℕ) → value < 256 ^ n → from_bytes (to_bytes n value) ≡ value
unfolding to_bytes from_bytes_after
from_bytes-to_bytes zero value h = omega arith
from_bytes-to_bytes (suc n) value h = omega (
  arith,
  from_bytes-append_byte 0 (to_bytes n (value / 256)) (value % 256),
  from_bytes-to_bytes n (value / 256) (omega arith),
)

to_bytes-append :
    (n high byte : ℕ) (content : Bytes)
    → byte < 256
    → to_bytes (suc n) (high * 256 + byte) ++ content ≡ to_bytes n high ++ byte ∷ content
unfolding to_bytes
to_bytes-append n high byte content h =
    let quotient : (high * 256 + byte) / 256 ≡ high = omega arith in
    let remainder : (high * 256 + byte) % 256 ≡ byte = omega arith in
    rw (quotient, remainder, append_assoc (to_bytes n high) (byte ∷ []) content) refl

-- The bytes of a number that was read are the bytes it was read from.
to_bytes-from_bytes_after :
    (m n high : ℕ) (content : Bytes)
    → m ≡ n + length content
    → IsBytes content
    → to_bytes m (from_bytes_after high content) ≡ to_bytes n high ++ content
unfolding from_bytes_after
to_bytes-from_bytes_after m n high [] e h =
    let same : m ≡ n = omega arith in rw (same, append-nil (to_bytes n high)) refl
to_bytes-from_bytes_after m n high (byte ∷ content) e h =
    to_bytes-from_bytes_after m (suc n) (high * 256 + byte) content (omega arith) h.1
    ∙ to_bytes-append n high byte content h.0

from_bytes_after-bound :
    (m n high : ℕ) (content : Bytes)
    → m ≡ n + length content
    → IsBytes content
    → high < 256 ^ n
    → from_bytes_after high content < 256 ^ m
unfolding from_bytes_after
from_bytes_after-bound m n high [] e _ h = let same : m ≡ n = omega arith in rw same h
from_bytes_after-bound m n high (byte ∷ content) e (small, bytes) h =
    from_bytes_after-bound m (suc n) (high * 256 + byte) content (omega arith) bytes (omega arith)

pub from_bytes-bound :
    (content : Bytes) → IsBytes content → from_bytes content < 256 ^ length content
from_bytes-bound content h =
    from_bytes_after-bound (length content) 0 0 content (omega arith) h (omega arith)

pub to_bytes-from_bytes :
    (content : Bytes) → IsBytes content → to_bytes (length content) (from_bytes content) ≡ content
unfolding to_bytes
to_bytes-from_bytes content h =
    to_bytes-from_bytes_after (length content) 0 0 content (omega arith) h

-- Digits.
pub digit_value-hex_digit : (n : ℕ) → n < 16 → digit_value (hex_digit n) ≡ some n
unfolding digit_value hex_digit
digit_value-hex_digit n h = ground arith

pub is_space-hex_digit : (n : ℕ) → n < 16 → is_space (hex_digit n) ≡ false
unfolding is_space hex_digit
is_space-hex_digit n h = ground arith

pub from_hex-pair :
    (c d high low : ℕ) (text : Text) (content : Bytes)
    → is_space c ≡ false
    → digit_value c ≡ some high
    → digit_value d ≡ some low
    → from_hex text ≡ some content
    → from_hex (c ∷ d ∷ text) ≡ some ((high * 16 + low) ∷ content)
unfolding from_hex_after
from_hex-pair c d high low text content not_space first second rest = ground arith

-- Hexadecimal text reads back.
pub from_hex-hex : (content : Bytes) → IsBytes content → from_hex (hex content) ≡ some content
unfolding from_hex_after hex
from_hex-hex [] h = refl
from_hex-hex (byte ∷ content) (small, bytes) =
    let value : byte / 16 * 16 + byte % 16 ≡ byte = omega arith in
    from_hex-pair (hex_digit (byte / 16)) (hex_digit (byte % 16)) (byte / 16) (byte % 16)
      (hex content) content (is_space-hex_digit (byte / 16) (omega arith))
      (digit_value-hex_digit (byte / 16) (omega arith))
      (digit_value-hex_digit (byte % 16) (omega arith)) (from_hex-hex content bytes)
    ∙ ap (λ b. some (b ∷ content)) value

-- ===== src/Abi/Joined.antt =====
-- The words of a call or view of src/aero_bot/lp_calldata.py, one by one.
use aero_bot.Prelude.{
  ℕ, zero, suc, ◌+◌, ◌*◌, some, List, [], ◌∷◌, ◌++◌, ◌≡◌, refl, ap, arith, length, take, drop,
  get_elem?, length-append, ◌∙◌, sym, inl, inr, subst,
}
use aero_bot.Prelude.Int.{ℤ, pos}
use aero_bot.Prelude.Results.{
  Result, ok, Ensures, Ensures-ok, Result-cases, Ensures-map, ok-injective,
}
use aero_bot.Abi.Bytes.{Text, Bytes, IsBytes, from_bytes, hex, from_hex-hex, IsBytes-append}
use aero_bot.Abi.Address.{IsAddress, with_prefix, normalize_evm_address, normalize-IsAddress}
use aero_bot.Abi.Words.{
  word, signed_word, address_word, slice, unsigned_at, signed_value, low_address, word_bytes,
  view_bytes,
}
use aero_bot.Abi.Words.Laws.{
  IsWord, word-EncodesUnsigned, signed_word-EncodesSigned, address_word-EncodesAddress,
  low_address-EncodesAddress, EncodesAddress-IsWord,
}
use aero_bot.Abi.Params.{address_field, as_field}
use aero_bot.Abi.Position.{join_words}

-- Every encoder in the list returns a word, if it returns.
abbrev pub AllWords : List (Result Bytes) → Type 0
AllWords [] = Unit
AllWords (encoded ∷ rest) = Ensures encoded IsWord × AllWords rest

-- The first encoder and the rest of a joined list.
joined_parts :
    (encoded : Result Bytes) (rest : List (Result Bytes)) (first others : Bytes)
    → encoded ≡ ok first
    → join_words rest ≡ ok others
    → join_words (encoded ∷ rest) ≡ ok (first ++ others)
joined_parts encoded rest first others returned joined = rw (returned, joined) refl

join_words-first :
    (encoded : Result Bytes) (rest : List (Result Bytes)) (content : Bytes)
    → join_words (encoded ∷ rest) ≡ ok content
    → (first : Bytes) × (others : Bytes) × (encoded ≡ ok first)
      × (join_words rest ≡ ok others)
      × (content ≡ first ++ others)
join_words-first encoded rest content h = elim (Result-cases encoded) [
  | inr (e, raised) ↦ cc
  | inl (first, returned) ↦ elim (Result-cases (join_words rest)) [
    | inr (e, raised) ↦ cc
    | inl (others, joined_rest) ↦ (
      first,
      others,
      returned,
      joined_rest,
      ok-injective (sym h ∙ joined_parts encoded rest first others returned joined_rest),
    )
  ]
]

take-append : (n : ℕ) (xs ys : Bytes) → length xs ≡ n → take n (xs ++ ys) ≡ xs
take-append zero [] [] h = refl
take-append zero [] (y ∷ ys) h = refl
take-append zero (x ∷ xs) ys h = absurd (omega arith)
take-append (suc n) [] ys h = absurd (omega arith)
take-append (suc n) (x ∷ xs) ys h = ap (λ t. x ∷ t) (take-append n xs ys (omega arith))

drop-append : (m n : ℕ) (xs ys : Bytes) → n ≡ length xs + m → drop n (xs ++ ys) ≡ drop m ys
drop-append m n [] ys h = let same : n ≡ m = omega arith in rw same refl
drop-append m zero (x ∷ xs) ys h = absurd (omega arith)
drop-append m (suc n) (x ∷ xs) ys h = drop-append m n xs ys (omega arith)

some_injective : {A : Type 0} {a b : A} → some a ≡ some b → a ≡ b
some_injective {a} e = cc

pub join_words-slice :
    (encoders : List (Result Bytes)) (content : Bytes) (index : ℕ) (encoded : Result Bytes)
    → AllWords encoders
    → join_words encoders ≡ ok content
    → get_elem? encoders index ≡ some encoded
    → encoded ≡ ok (slice content index)
join_words-slice [] content index encoded words joined found = cc
join_words-slice (e ∷ rest) content zero encoded (first_word, words) joined found =
    let (first, others, returned, rest_joined, split) = join_words-first e rest content joined in
    let size : length first ≡ word_bytes = (Ensures-ok _ _ returned first_word).0 in
    sym (some_injective found)
    ∙ returned
    ∙ ap ok (sym (ap (take word_bytes) split ∙ take-append word_bytes first others size))
join_words-slice (e ∷ rest) content (suc index) encoded (first_word, words) joined found =
    let (first, others, returned, rest_joined, split) = join_words-first e rest content joined in
    let size : length first ≡ word_bytes = (Ensures-ok _ _ returned first_word).0 in
    join_words-slice rest others index encoded words rest_joined found
    ∙ ap (λ c. ok (take word_bytes c))
        (sym (
          ap (drop (suc index * word_bytes)) split
          ∙ drop-append (index * word_bytes) (suc index * word_bytes) first others (omega arith)))

pub join_words-IsBytes :
    (encoders : List (Result Bytes)) (content : Bytes)
    → AllWords encoders
    → join_words encoders ≡ ok content
    → IsBytes content × (length content ≡ length encoders * word_bytes)
join_words-IsBytes [] content words joined = let empty : content ≡ [] = cc in rw empty (tt, refl)
join_words-IsBytes (e ∷ rest) content (first_word, words) joined =
    let (first, others, returned, rest_joined, split) = join_words-first e rest content joined in
    let (size, bytes) = Ensures-ok _ _ returned first_word in
    let (others_bytes, others_size) = join_words-IsBytes rest others words rest_joined in
    rw split
      (IsBytes-append first others bytes others_bytes, omega (arith, length-append first others))

-- The fields that the word at an index reads back as.
module _ (content : Bytes) (index : ℕ) where
  pub unsigned_field :
      (value : ℤ) → word value ≡ ok (slice content index) → pos (unsigned_at content index) ≡ value
  unfolding unsigned_at
  unsigned_field value h = (Ensures-ok _ _ h (word-EncodesUnsigned value)).1

  pub signed_field :
      (value : ℤ)
      → signed_word value ≡ ok (slice content index)
      → signed_value (unsigned_at content index) ≡ value
  unfolding unsigned_at
  signed_field value h = (Ensures-ok _ _ h (signed_word-EncodesSigned value)).1

  pub address_field_lem :
      (address : Text)
      → IsAddress address
      → address_word address ≡ ok (slice content index)
      → low_address (unsigned_at content index) ≡ address
  unfolding unsigned_at
  address_field_lem address h e =
      let (found, returned, encodes) = address_word-EncodesAddress address h in
      ap (λ w. low_address (from_bytes w)) (ok-injective (sym e ∙ returned))
      ∙ low_address-EncodesAddress address found encodes

pub view_bytes-hex :
    (content : Bytes) → IsBytes content → view_bytes (with_prefix (hex content)) ≡ ok content
unfolding view_bytes
view_bytes-hex content h = rw (from_hex-hex content h) refl

-- The encoders return words.
pub word-IsWord : (value : ℤ) → Ensures (word value) IsWord
word-IsWord value =
    Ensures-map (word value) _ _ (λ _ encodes. encodes.0) (word-EncodesUnsigned value)

pub signed_word-IsWord : (value : ℤ) → Ensures (signed_word value) IsWord
signed_word-IsWord value =
    Ensures-map (signed_word value) _ _ (λ _ encodes. encodes.0) (signed_word-EncodesSigned value)

pub address_word-IsWord :
    (address : Text) → IsAddress address → Ensures (address_word address) IsWord
address_word-IsWord address h =
    let (found, returned, encodes) = address_word-EncodesAddress address h in
    rw (returned, Ensures) (EncodesAddress-IsWord address found encodes)

pub address_field-IsAddress :
    (text address : Text) → address_field text ≡ ok address → IsAddress address
address_field-IsAddress text address h = elim (Result-cases (normalize_evm_address text)) [
  | inl (found, e) ↦
      subst IsAddress (ok-injective (sym (ap as_field e) ∙ h)) (normalize-IsAddress text found e)
  | inr (_, e) ↦ cc
]

-- The word that an encoder of a joined list returned.
pub nth_word :
    (encoders : List (Result Bytes)) (content : Bytes)
    → AllWords encoders
    → join_words encoders ≡ ok content
    → (index : ℕ) (encoded : Result Bytes) → get_elem? encoders index ≡ some encoded
    → encoded ≡ ok (slice content index)
nth_word encoders content words joined index encoded =
    join_words-slice encoders content index encoded words joined

-- ===== src/Abi/Calls.antt =====
-- The calldata of src/aero_bot/lp_calldata.py as the position manager reads it.
use aero_bot.Prelude.{
  ℕ, Bool, true, false, ◌&&◌, List, [], ◌∷◌, ◌≡◌, refl, arith, ap, sym, take, drop, ◌∙◌, inl, inr,
  length,
}
use aero_bot.Prelude.Results.{
  Result, ok, Error, Ensures, Ensures-bind, Ensures-checked, Ensures-ok, Result-cases, ok-injective,
  ◌>>=◌,
}
use aero_bot.Abi.Bytes.{Text, Bytes, IsBytes, hex, IsBytes-append}
use aero_bot.Abi.Address.{IsAddress}
use aero_bot.Abi.Words.{view_bytes, selector_and_words}
use aero_bot.Abi.Params.{
  LpMintParams, LpDecreaseLiquidityParams, lp_mint_params, address_field, mint_fields_fit,
  coherent_mint_range,
}
use aero_bot.Abi.Position.{
  join_words, build_lp_mint_calldata, build_lp_decrease_liquidity_calldata, call_with, selector,
}
use aero_bot.Abi.Structs.{
  mint_of, mint_encoders, mint_of-joined, mint-AllWords, decrease_of, decrease_encoders,
  decrease-AllWords, decrease_of-joined,
}
use aero_bot.Abi.Joined.{AllWords, join_words-IsBytes, view_bytes-hex, address_field-IsAddress}

-- The selector's bytes and the words of a call.
abbrev pub read_call : Text → Result (Bytes × Bytes)
read_call text = view_bytes text >>= λ content. ok (take 4 content, drop 4 content)

call_with-joined :
    (chosen : Text) (encoders : List (Result Bytes)) (content : Bytes)
    → join_words encoders ≡ ok content
    → call_with chosen encoders ≡ ok (selector_and_words chosen content)
call_with-joined chosen encoders content joined = rw joined refl

read_call-selector :
    (a b c d : ℕ) (content : Bytes)
    → IsBytes (a ∷ b ∷ c ∷ d ∷ content)
    → read_call (selector_and_words (selector a b c d) content) ≡ ok (a ∷ b ∷ c ∷ d ∷ [], content)
unfolding selector_and_words hex
read_call-selector a b c d content bytes =
    ap (λ v. v >>= λ read. ok (take 4 read, drop 4 read))
      (view_bytes-hex (a ∷ b ∷ c ∷ d ∷ content) bytes)

-- Every call whose encoders return words reads back as its selector and its words.
pub call_with-read :
    (a b c d : ℕ) (encoders : List (Result Bytes)) (text : Text)
    → IsBytes (a ∷ b ∷ c ∷ d ∷ [])
    → AllWords encoders
    → call_with (selector a b c d) encoders ≡ ok text
    → (content : Bytes) × (join_words encoders ≡ ok content)
      × (read_call text ≡ ok (a ∷ b ∷ c ∷ d ∷ [], content))
call_with-read a b c d encoders text bytes words built = elim (Result-cases (join_words encoders)) [
  | inr (e, raised) ↦ cc
  | inl (content, joined) ↦
      let (content_bytes, _) = join_words-IsBytes encoders content words joined in
      let built_as =
        ok-injective (sym (call_with-joined (selector a b c d) encoders content joined) ∙ built) in
      (
        content,
        joined,
        ap read_call (sym built_as)
            ∙ read_call-selector a b c d content
                (IsBytes-append (a ∷ b ∷ c ∷ d ∷ []) content bytes content_bytes),
      )
]

and_left : (a b : Bool) → a && b ≡ true → a ≡ true
and_left true b h = refl
and_left false b h = h

-- What validated mint parameters satisfy.
pub mint-IsAddress :
    (raw : LpMintParams)
    → Ensures (lp_mint_params raw) (λ p.
      IsAddress p.token0_address
      × IsAddress p.token1_address
      × IsAddress p.recipient_address
      × (mint_fields_fit p ≡ true))
unfolding lp_mint_params
mint-IsAddress raw = Ensures-bind (address_field raw.token0_address) _ _ (λ token0 is_token0.
    Ensures-bind (address_field raw.token1_address) _ _ (λ token1 is_token1.
      Ensures-bind (address_field raw.recipient_address) _ _ (λ recipient is_recipient.
        let params : LpMintParams = record raw {
          token0_address = token0;
          token1_address = token1;
          recipient_address = recipient;
        } in
        Ensures-checked (mint_fields_fit params && coherent_mint_range params)
          Error.validation_error params _
          (λ held. (
            address_field-IsAddress raw.token0_address token0 is_token0,
            address_field-IsAddress raw.token1_address token1 is_token1,
            address_field-IsAddress raw.recipient_address recipient is_recipient,
            and_left (mint_fields_fit params) (coherent_mint_range params) held,
          )))))

-- A mint of validated parameters, if it is built at all, reads back as the selector b5007d1f and
-- twelve words, and the fields at the offsets of those words are the parameters.
pub build_lp_mint_calldata-read :
    (p : LpMintParams) (text : Text)
    → lp_mint_params p ≡ ok p
    → build_lp_mint_calldata p ≡ ok text
    → (content : Bytes) × (read_call text ≡ ok (181 ∷ 0 ∷ 125 ∷ 31 ∷ [], content))
      × (length content ≡ 384)
      × (mint_of content ≡ p)
unfolding build_lp_mint_calldata
build_lp_mint_calldata-read p text valid built =
    let (token0, token1, recipient, _) = Ensures-ok _ _ valid (mint-IsAddress p) in
    let words = mint-AllWords p token0 token1 recipient in
    let (content, joined, read) =
      call_with-read 181 0 125 31 (mint_encoders p) text (ground arith) words built in
    (
      content,
      read,
      (join_words-IsBytes (mint_encoders p) content words joined).1,
      mint_of-joined p content token0 token1 recipient joined,
    )

-- A liquidity decrease, if it is built at all, reads back as the selector 0c49ccbe and its words,
-- and the fields at the offsets of those words are the parameters.
pub build_lp_decrease_liquidity_calldata-read :
    (p : LpDecreaseLiquidityParams) (text : Text)
    → build_lp_decrease_liquidity_calldata p ≡ ok text
    → (content : Bytes) × (read_call text ≡ ok (12 ∷ 73 ∷ 204 ∷ 190 ∷ [], content))
      × (decrease_of content ≡ p)
unfolding build_lp_decrease_liquidity_calldata
build_lp_decrease_liquidity_calldata-read p text built =
    let words = decrease-AllWords p in
    let (content, joined, read) =
      call_with-read 12 73 204 190 (decrease_encoders p) text (ground arith) words built in
    (content, read, decrease_of-joined p content joined)

-- ===== src/Base64/Tests.antt =====
-- The codec on short texts.
use trifecta_sdk.Common.{ℕ, zero, suc, ◌<◌, ◌≡◌, ◌≢◌, refl, some, none, List, [], ◌∷◌, ◌++◌, arith}
use trifecta_sdk.CString.{byte_at, strnlen}
use trifecta_sdk.RingBuffer.Bytes.{max_data_length}
use trifecta_sdk.Base64.Encoding.{IsText}
use trifecta_sdk.Base64.Loop.{zero_padded}
use trifecta_sdk.Base64.RoundTrip.{decode_fuel, DecodesTo, decode-encode}
use trifecta_sdk.Base64.Padding.{decode_padded_diverges}
use trifecta_sdk.Base64.Termination.{base64_decode-terminates}
use trifecta_sdk.Base64.{
  base64_chars, base64_lookup, base64_char_to_value, encode_groups, quad, decode_round, sextet,
  store_triple, store, base64_encode, base64_decode, out_of_fuel, rejected, decoded, invalid,
}

-- "Man" encodes as "TWFu".
encode_man : base64_encode (b'M' ∷ b'a' ∷ b'n' ∷ []) 5 ≡ some (b'T' ∷ b'W' ∷ b'F' ∷ b'u' ∷ [])
unfolding base64_encode encode_groups base64_chars quad
encode_man = refl

-- "M" encodes as "TQAA", where the standard has "TQ==".
encode_m : base64_encode (b'M' ∷ []) 5 ≡ some (b'T' ∷ b'Q' ∷ b'A' ∷ b'A' ∷ [])
unfolding base64_encode encode_groups base64_chars quad
encode_m = refl

-- One byte too few for the NUL.
encode_short : base64_encode (b'M' ∷ []) 4 ≡ none
unfolding base64_encode
encode_short = refl

decode_man :
    base64_decode 3 (b'T' ∷ b'W' ∷ b'F' ∷ b'u' ∷ 0 ∷ []) (9 ∷ 9 ∷ 9 ∷ 9 ∷ []) 4
    ≡ decoded (b'M' ∷ b'a' ∷ b'n' ∷ 9 ∷ []) 3
unfolding base64_decode base64_char_to_value base64_lookup strnlen decode_round sextet store_triple
    store
decode_man = refl

decode_bad :
    base64_decode 3 (b'T' ∷ b'*' ∷ b'F' ∷ b'u' ∷ 0 ∷ []) (9 ∷ 9 ∷ 9 ∷ 9 ∷ []) 4
    ≡ rejected (9 ∷ 9 ∷ 9 ∷ 9 ∷ [])
unfolding base64_decode base64_char_to_value base64_lookup strnlen decode_round sextet store_triple
    store
decode_bad = refl

looks_up : base64_char_to_value b'/' ≢ invalid
unfolding base64_char_to_value base64_lookup
looks_up = omega arith

decode-encode_example :
    DecodesTo (zero_padded (b'M' ∷ [])) (9 ∷ 9 ∷ 9 ∷ 9 ∷ []) (
      base64_decode decode_fuel ((b'T' ∷ b'Q' ∷ b'A' ∷ b'A' ∷ []) ++ 0 ∷ []) (9 ∷ 9 ∷ 9 ∷ 9 ∷ []) 4)
decode-encode_example =
    decode-encode (b'M' ∷ []) (b'T' ∷ b'Q' ∷ b'A' ∷ b'A' ∷ []) [] (9 ∷ 9 ∷ 9 ∷ 9 ∷ []) 5 4
      (omega arith, tt) encode_m (omega arith) (omega arith) (omega arith)

abbrev padded : List ℕ
padded = (b'T' ∷ b'Q' ∷ []) ++ b'=' ∷ b'=' ∷ 0 ∷ []

padded_length : strnlen padded max_data_length ≡ 4
unfolding strnlen
padded_length = refl

letters-IsText : IsText (b'T' ∷ b'Q' ∷ [])
unfolding base64_chars
letters-IsText = ((19, omega arith, refl), ((16, omega arith, refl), tt))

-- "TQ==" is the standard text of "M".
decode_padded_diverges_example : base64_decode 100 padded (9 ∷ 9 ∷ 9 ∷ 9 ∷ []) 4 ≡ out_of_fuel
decode_padded_diverges_example =
    decode_padded_diverges (b'T' ∷ b'Q' ∷ []) (b'=' ∷ 0 ∷ []) (9 ∷ 9 ∷ 9 ∷ 9 ∷ []) 4 letters-IsText
      (omega (arith, padded_length)) (omega (arith, padded_length)) (omega (arith, padded_length))
      (omega arith) 100

abbrev man_text : List ℕ
man_text = b'T' ∷ b'W' ∷ b'F' ∷ b'u' ∷ 0 ∷ []

man_length : strnlen man_text max_data_length ≡ 4
unfolding strnlen
man_length = refl

man_plain : (i : ℕ) → i < 4 → byte_at man_text i ≢ b'='
man_plain zero h = omega arith
man_plain (suc zero) h = omega arith
man_plain (suc (suc zero)) h = omega arith
man_plain (suc (suc (suc zero))) h = omega arith
man_plain (suc (suc (suc (suc i)))) h = absurd (omega arith)

base64_decode-terminates_example :
    base64_decode decode_fuel man_text (9 ∷ 9 ∷ 9 ∷ 9 ∷ []) 4 ≢ out_of_fuel
base64_decode-terminates_example =
    base64_decode-terminates man_text (9 ∷ 9 ∷ 9 ∷ 9 ∷ []) 4
      (λ i h. man_plain i (omega (arith, man_length)))

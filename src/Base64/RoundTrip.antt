-- ===== src/Base64/RoundTrip.antt =====
-- fs_base64_decode after fs_base64_encode.
use trifecta_sdk.Common.{
  ℕ, zero, suc, ◌+◌, ◌-◌, ◌*◌, ◌/◌, ◌^◌, ◌≤◌, ◌<◌, ◌≡◌, ◌≢◌, refl, sym, ap, ◌∙◌, some, List, [],
  ◌∷◌, ◌++◌, arith, size_t, length, take, ltb_of_le,
}
use trifecta_sdk.CString.{byte_at, strnlen}
use trifecta_sdk.CString.Laws.{NoNul, strnlen_text}
use trifecta_sdk.RingBuffer.Bytes.{max_data_length}
use trifecta_sdk.Base64.Tables.{char_ne}
use trifecta_sdk.Base64.Encoding.{
  length-encode_groups, IsText, encode_groups-IsText, base64_encode_lem,
}
use trifecta_sdk.Base64.Loop.{
  triples, octets, zero_padded, AreBytes, encode_groups-quads, triples-AreOctets, length-octets,
  length-quads, Finished, decode_loop-quads,
}
use trifecta_sdk.Base64.{
  Scan, encode_groups, encoded_length, base64_encode, decode_loop, padding_of, Decoded, decoded,
  base64_decode,
}

-- The rounds that a call can need: the text has at most FS_MAX_DATA_LENGTH characters.
abbrev pub decode_fuel : ℕ
decode_fuel = 513

pub length-zero_padded : (xs : List ℕ) → length (zero_padded xs) ≡ 3 * ((length xs + 2) / 3)
unfolding zero_padded
length-zero_padded [] = omega arith
length-zero_padded (a ∷ []) = omega arith
length-zero_padded (a ∷ b ∷ []) = omega arith
length-zero_padded (a ∷ b ∷ c ∷ rest) = omega (arith, length-zero_padded rest)

-- The bytes themselves stand first.
pub take-zero_padded : (xs : List ℕ) → take (length xs) (zero_padded xs) ≡ xs
unfolding zero_padded
take-zero_padded [] = refl
take-zero_padded (a ∷ []) = refl
take-zero_padded (a ∷ b ∷ []) = refl
take-zero_padded (a ∷ b ∷ c ∷ rest) = ap (λ t. a ∷ b ∷ c ∷ t) (take-zero_padded rest)

IsText-NoNul : (cs : List ℕ) → IsText cs → NoNul cs
IsText-NoNul [] h = tt
IsText-NoNul (c ∷ cs) ((v, lt, e), h) = ((λ z. (char_ne v lt).1 (sym e ∙ z)), IsText-NoNul cs h)

IsText-byte_at :
    (cs rest : List ℕ) (i : ℕ) → IsText cs → i < length cs → byte_at (cs ++ rest) i ≢ b'='
IsText-byte_at [] rest i h lt = absurd (omega arith)
IsText-byte_at (c ∷ cs) rest zero ((v, lt, e), h) l = λ z. (char_ne v lt).0 (sym e ∙ z)
IsText-byte_at (c ∷ cs) rest (suc i) (_, h) l = IsText-byte_at cs rest i h (omega arith)

-- A text of the encoder has no '=' at its end to subtract.
padding_of-IsText : (cs rest : List ℕ) → IsText cs → padding_of (cs ++ rest) (length cs) ≡ 0
unfolding padding_of
padding_of-IsText cs rest h = ground (arith, before 1, before 2)
  where
    before : (k : ℕ) → 0 < k → k ≤ length cs → byte_at (cs ++ rest) (length cs - k) ≢ b'='
    before k pos le = IsText-byte_at cs rest (length cs - k) h (omega arith)

-- What a decoded text comes to: the bytes, the length told, and the buffer's size kept.
pub record DecodesTo (bytes output : List ℕ) (r : Decoded) : Type 0 where
  pub out : List ℕ
  pub result : r ≡ decoded out (length bytes)
  pub same_size : length out ≡ length output
  pub contents : take (length bytes) out ≡ bytes

abbrev start_scan : List ℕ → Scan
start_scan output = record { i = 0; j = 0; output = output; decoded_length = 0 }

-- Past its checks a call is the loop.
base64_decode-loop :
    (fuel : ℕ) (input output : List ℕ) (size n : ℕ)
    → strnlen input max_data_length ≡ n
    → padding_of input n ≡ 0
    → 3 * (n / 4) ≤ size
    → n ≤ max_data_length
    → base64_decode fuel input output size ≡ decode_loop fuel input n size 0 (start_scan output)
unfolding base64_decode
base64_decode-loop fuel input output size n e p fits short =
    rw (e, p, ltb_of_le size (size_t (3 * (n / 4) + 2 ^ 64 - 0)) (omega arith)) refl

decode-groups :
    (xs rest output : List ℕ) (size : ℕ)
    → AreBytes xs
    → length (encode_groups xs) < max_data_length
    → length (zero_padded xs) ≤ size
    → size ≤ length output
    → DecodesTo
        (zero_padded xs)
        output
        (base64_decode decode_fuel (encode_groups xs ++ 0 ∷ rest) output size)
unfolding zero_padded
decode-groups xs rest output size ok short fits room = record {
  out = found.0;
  result =
      base64_decode-loop decode_fuel text output size (length (encode_groups xs)) measured unpadded
        (omega (arith, groups, octet_count)) (omega arith)
      ∙ found.1.result
      ∙ ap (decoded found.0) total;
  same_size = found.1.room;
  contents = ap (λ n. take n found.0) stored ∙ found.1.bytes;
}
  where
    text : List ℕ
    text = encode_groups xs ++ 0 ∷ rest

    plain : IsText (encode_groups xs)
    plain = encode_groups-IsText xs

    measured : strnlen text max_data_length ≡ length (encode_groups xs)
    measured = strnlen_text (encode_groups xs) rest max_data_length (IsText-NoNul _ plain) short

    unpadded : padding_of text (length (encode_groups xs)) ≡ 0
    unpadded = padding_of-IsText (encode_groups xs) (0 ∷ rest) plain

    groups : length (encode_groups xs) ≡ 4 * length (triples xs)
    groups = ap length (encode_groups-quads xs) ∙ length-quads (triples xs)

    octet_count : length (octets (triples xs)) ≡ 3 * length (triples xs)
    octet_count = length-octets (triples xs)

    stored : length (octets (triples xs)) ≡ 0 + 3 * length (triples xs)
    stored = omega (arith, octet_count)

    found :
        (out : List ℕ) × Finished
          (start_scan output)
          (triples xs)
          0
          out
          (decode_loop decode_fuel text (length (encode_groups xs)) size 0 (start_scan output))
    found =
        decode_loop-quads (triples xs) [] (0 ∷ rest) text decode_fuel (length (encode_groups xs))
          size 0 (start_scan output) (triples-AreOctets xs ok)
          (ap (λ t. t ++ 0 ∷ rest) (encode_groups-quads xs))
          (omega (arith, groups, length-quads (triples xs))) refl (omega arith)
          (omega (arith, groups)) (omega (arith, octet_count)) room

    total :
        size_t (size_t (0 + 3 * length (triples xs)) + 2 ^ 64 - 0) ≡ length (octets (triples xs))
    total = omega (arith, groups, octet_count)

-- What fs_base64_encode writes, fs_base64_decode reads back: the bytes with zeros up to a multiple of
-- three, and the length of that. The text must be shorter than FS_MAX_DATA_LENGTH and the decoder's
-- buffer must hold the result. The list is one of bytes.
pub decode-encode :
    (xs text rest output : List ℕ) (buffer_size size : ℕ)
    → AreBytes xs
    → base64_encode xs buffer_size ≡ some text
    → encoded_length (length xs) < max_data_length
    → 3 * ((length xs + 2) / 3) ≤ size
    → size ≤ length output
    → DecodesTo (zero_padded xs) output (base64_decode decode_fuel (text ++ 0 ∷ rest) output size)
decode-encode xs text rest output buffer_size size ok e short fits room =
    let written : text ≡ encode_groups xs = ground (arith, base64_encode_lem xs buffer_size) in
    rw written (
      decode-groups xs rest output size ok (omega (arith, length-encode_groups xs))
        (omega (arith, length-zero_padded xs)) room)

-- ===== src/Base64.antt =====
-- common/FS_Trifecta_Device_Utils.c, lines 16 to 235: the Base64 codec of the serial packets.
pub mod Tables
pub mod Encoding
pub mod Decoding
pub mod Loop
pub mod RoundTrip
pub mod Padding
pub mod Termination
mod Tests
use trifecta_sdk.Common.{
  ℕ, zero, suc, ◌+◌, ◌-◌, ◌*◌, ◌/◌, ◌%◌, ◌^◌, Bool, true, false, ◌||◌, Option, none, some, List, [],
  ◌∷◌, ◌++◌, ltb, ◌==◌, u32, size_t, length, get_or, set, replicate, if◌then◌else◌,
}
use trifecta_sdk.CString.{byte_at, strnlen}
use trifecta_sdk.RingBuffer.Bytes.{max_data_length}

-- ABC…XYZ, abc…xyz, 0…9, + and /.
ascending : ℕ → ℕ → List ℕ
ascending from zero = []
ascending from (suc n) = from ∷ ascending (from + 1) n

unfoldable pub base64_chars : List ℕ
unfolding ascending
base64_chars = ascending b'A' 26 ++ (ascending b'a' 26 ++ (ascending b'0' 10 ++ b'+' ∷ b'/' ∷ []))

-- The table's -1, as the `uint32_t` that it becomes where the decoder stores it.
abbrev pub invalid : ℕ
invalid = 2 ^ 32 - 1

unfoldable pub base64_lookup : List ℕ
unfolding ascending
base64_lookup =
    replicate 43 invalid
    ++ (62 ∷ replicate 3 invalid
        ++ (63 ∷ ascending 52 10
            ++ (replicate 7 invalid
                ++ (ascending 0 26
                    ++ (replicate 6 invalid ++ (ascending 26 26 ++ replicate 133 invalid))))))

-- The index is a `uint8_t`.
unfoldable pub base64_char_to_value : ℕ → ℕ
base64_char_to_value c = get_or base64_lookup (c % 256) invalid

-- The four characters for three octets.
unfoldable pub quad : ℕ → ℕ → ℕ → List ℕ
quad octet_a octet_b octet_c =
    let triple = u32 (octet_a * 2 ^ 16 + octet_b * 2 ^ 8 + octet_c) in
    get_or base64_chars (triple / 2 ^ 18 % 64) 0
    ∷ get_or base64_chars (triple / 2 ^ 12 % 64) 0
    ∷ get_or base64_chars (triple / 2 ^ 6 % 64) 0
    ∷ get_or base64_chars (triple % 64) 0
    ∷ []

-- The loop of `fs_base64_encode`: an octet past the end reads as 0.
unfoldable pub encode_groups : List ℕ → List ℕ
encode_groups [] = []
encode_groups (a ∷ []) = quad a 0 0
encode_groups (a ∷ b ∷ []) = quad a b 0
encode_groups (a ∷ b ∷ c ∷ rest) = quad a b c ++ encode_groups rest

-- `for (i = 0; i < total - j; i++) output_buffer[j++] = '='`, with `n = total - j`.
pad_from : ℕ → ℕ → List ℕ
pad_from i zero = []
pad_from i (suc n) = let rest = pad_from (i + 1) n in if ltb i (suc n) then b'=' ∷ rest else []

abbrev pub encoded_length : ℕ → ℕ
encoded_length len = 4 * ((len + 2) / 3)

-- `none` is the return of -1; otherwise the text that stands before the NUL.
unfoldable pub base64_encode : List ℕ → ℕ → Option (List ℕ)
unfolding pad_from
base64_encode input buffer_size =
    let groups = encode_groups input in
    let total = encoded_length (length input) in
    if ltb buffer_size (total + 1)
    then none
    else some (groups ++ pad_from 0 (total - length groups))

-- The decoder's variables. `output` is the caller's buffer.
pub record Scan : Type 0 where
  pub i : ℕ
  pub j : ℕ
  pub output : List ℕ
  pub decoded_length : ℕ

-- `input[i] == '=' ? 0 : base64_char_to_value(input[i++])`: the value and the new `i`.
unfoldable pub sextet : List ℕ → ℕ → ℕ × ℕ
sextet input i =
    if byte_at input i == b'=' then (0, i) else (base64_char_to_value (byte_at input i), i + 1)

-- `if (j < buffer_size) output[j++] = byte`.
unfoldable pub store : ℕ → ℕ → Scan → Scan
store buffer_size byte s =
    if ltb s.j buffer_size then record s { output = set s.output s.j byte; j = s.j + 1 } else s

-- The second half of a round, when the four values are read.
unfoldable pub store_triple : ℕ → ℕ → ℕ → ℕ → ℕ → Scan → Scan
store_triple buffer_size a b c d s =
    let triple = u32 (a * 2 ^ 18 + b * 2 ^ 12 + c * 2 ^ 6 + d) in
    let s' =
      store buffer_size (triple % 256)
        (store buffer_size (triple / 2 ^ 8 % 256) (store buffer_size (triple / 2 ^ 16 % 256) s)) in
    record s' { decoded_length = size_t (s'.decoded_length + 3) }

-- One round of the loop; the Boolean says whether all four characters were valid.
unfoldable pub decode_round : List ℕ → ℕ → Scan → Bool × Scan
decode_round input buffer_size s =
    let (a, i₁) = sextet input s.i in
    let (b, i₂) = sextet input i₁ in
    let (c, i₃) = sextet input i₂ in
    let (d, i₄) = sextet input i₃ in
    let read = record s { i = i₄ } in
    if a == invalid || b == invalid || c == invalid || d == invalid
    then (false, read)
    else (true, store_triple buffer_size a b c d read)

-- What a call comes to. The buffer is written to also where the text is rejected.
pub data Decoded : Type 0 where
  out_of_fuel : Decoded
  rejected : List ℕ → Decoded
  decoded : List ℕ → ℕ → Decoded

-- The rest of the loop, after a round.
pub decode_loop : ℕ → List ℕ → ℕ → ℕ → ℕ → Scan → Decoded
decode_loop zero input input_length buffer_size padding s = out_of_fuel
decode_loop (suc fuel) input input_length buffer_size padding s =
    let (valid, s') = decode_round input buffer_size s in
    let rest = decode_loop fuel input input_length buffer_size padding s' in
    if ltb s.i input_length
    then if valid then rest else rejected s'.output
    else decoded s.output (size_t (s.decoded_length + 2 ^ 64 - padding))

-- How many of the last two characters are '='.
unfoldable pub padding_of : List ℕ → ℕ → ℕ
padding_of input n =
    (if ltb 0 n then if byte_at input (n - 1) == b'=' then 1 else 0 else 0)
    + (if ltb 1 n then if byte_at input (n - 2) == b'=' then 1 else 0 else 0)

-- The `size_t` difference wraps.
unfoldable pub base64_decode : ℕ → List ℕ → List ℕ → ℕ → Decoded
unfolding decode_loop padding_of
base64_decode fuel input output buffer_size =
    let input_length = strnlen input max_data_length in
    let padding = padding_of input input_length in
    if ltb buffer_size (size_t (3 * (input_length / 4) + 2 ^ 64 - padding))
    then rejected output
    else decode_loop fuel input input_length buffer_size padding
        (record { i = 0; j = 0; output = output; decoded_length = 0 })

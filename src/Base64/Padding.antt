-- ===== src/Base64/Padding.antt =====
-- fs_base64_decode at the padding character.
use trifecta_sdk.Common.{
  ℕ, zero, suc, ◌+◌, ◌-◌, ◌*◌, ◌/◌, ◌%◌, ◌^◌, ◌≤◌, ◌<◌, ◌≡◌, refl, sym, ap, ◌∙◌, true, false, List,
  [], ◌∷◌, ◌++◌, arith, ◌==◌, size_t, length, lt→ltb, ltb_of_le, get_or-append_here, append-snoc,
  length-snoc,
}
use mathlib.Core.Path.{subst}
use trifecta_sdk.CString.{byte_at, strnlen}
use trifecta_sdk.RingBuffer.Bytes.{max_data_length}
use trifecta_sdk.Base64.Tables.{char_of}
use trifecta_sdk.Base64.Encoding.{IsText}
use trifecta_sdk.Base64.Decoding.{sextet-char}
use trifecta_sdk.Base64.{
  Scan, sextet, store, store_triple, decode_round, decode_loop, padding_of, out_of_fuel,
  base64_decode, invalid,
}

-- At `i` the input goes on with table characters up to a '=' at `k`.
record AheadOfPad (input : List ℕ) (k i : ℕ) : Type 0 where
  before : List ℕ
  text : List ℕ
  after : List ℕ
  split : input ≡ before ++ (text ++ b'=' ∷ after)
  at : i ≡ length before
  pad_at : k ≡ length before + length text
  plain : IsText text

AheadOfPad-le : {input : List ℕ} {k i : ℕ} → AheadOfPad input k i → i ≤ k
AheadOfPad-le h = omega (arith, h.at, h.pad_at)

sextet_pad : (input : List ℕ) (i : ℕ) → byte_at input i ≡ b'=' → sextet input i ≡ (0, i)
unfolding sextet
sextet_pad input i p = rw p refl

-- Reading one character there is valid, and does not pass the '='.
sextet-AheadOfPad :
    {input : List ℕ} {k i : ℕ}
    → AheadOfPad input k i
    → ((sextet input i).0 < 64) × AheadOfPad input k (sextet input i).1
sextet-AheadOfPad {input} {k} {i} h = go h.before h.text h.after h.split h.at h.pad_at h.plain
  where
    go :
        (pre cs post : List ℕ)
        → input ≡ pre ++ (cs ++ b'=' ∷ post)
        → i ≡ length pre
        → k ≡ length pre + length cs
        → IsText cs
        → ((sextet input i).0 < 64) × AheadOfPad input k (sextet input i).1
    go pre [] post e ei ek ok =
        let here : byte_at input i ≡ b'=' =
          ap (λ t. byte_at t i) e
          ∙ ap (byte_at (pre ++ b'=' ∷ post)) ei
          ∙ get_or-append_here pre post b'=' 0 in
        rw (sextet_pad input i here) (omega arith, h)
    go pre (c ∷ cs) post e ei ek ((v, lt, ec), ok) =
        let here : byte_at input i ≡ char_of v =
          ap (λ t. byte_at t i) e
          ∙ ap (byte_at (pre ++ (c ∷ cs ++ b'=' ∷ post))) ei
          ∙ get_or-append_here pre (cs ++ b'=' ∷ post) c 0
          ∙ ec in
        rw (sextet-char input i v lt here) (
          lt,
          record {
            before = pre ++ c ∷ [];
            text = cs;
            after = post;
            split = e ∙ append-snoc pre (cs ++ b'=' ∷ post) c;
            at = omega (arith, length-snoc pre c);
            pad_at = omega (arith, length-snoc pre c);
            plain = ok;
          },
        )

store-i : (size byte : ℕ) (s : Scan) → (store size byte s).i ≡ s.i
unfolding store
store-i size byte s = ground arith

pub store_triple-i : (size a b c d : ℕ) (s : Scan) → (store_triple size a b c d s).i ≡ s.i
unfolding store_triple
store_triple-i size a b c d s =
    let t = (a * 2 ^ 18 + b * 2 ^ 12 + c * 2 ^ 6 + d) % 2 ^ 32 in
    let s₁ = store size (t / 2 ^ 16 % 256) s in
    let s₂ = store size (t / 2 ^ 8 % 256) s₁ in
    store-i size (t % 256) s₂
    ∙ store-i size (t / 2 ^ 8 % 256) s₁
    ∙ store-i size (t / 2 ^ 16 % 256) s

-- A round whose four values are in the table's range is valid.
decode_round_valid :
    (input : List ℕ) (size : ℕ) (s : Scan)
    → let i₁ = (sextet input s.i).1 in
      let i₂ = (sextet input i₁).1 in
      let i₃ = (sextet input i₂).1 in
      (sextet input s.i).0 < 64
      → (sextet input i₁).0 < 64
      → (sextet input i₂).0 < 64
      → (sextet input i₃).0 < 64
      → ((decode_round input size s).0 ≡ true)
        × ((decode_round input size s).1.i ≡ (sextet input i₃).1)
unfolding decode_round
decode_round_valid input size s a b c d =
    rw (value_ok _ a, value_ok _ b, value_ok _ c, value_ok _ d)
      (refl, store_triple-i size _ _ _ _ _)
  where
    value_ok : (v : ℕ) → v < 64 → (v == invalid) ≡ false
    value_ok v h = ground arith

-- So a whole round is valid and does not pass the '='.
decode_round-AheadOfPad :
    {input : List ℕ} {k : ℕ} (size : ℕ) (s : Scan)
    → AheadOfPad input k s.i
    → ((decode_round input size s).0 ≡ true) × AheadOfPad input k (decode_round input size s).1.i
decode_round-AheadOfPad {input} {k} size s h =
    let (a, h₁) = sextet-AheadOfPad h in
    let (b, h₂) = sextet-AheadOfPad h₁ in
    let (c, h₃) = sextet-AheadOfPad h₂ in
    let (d, h₄) = sextet-AheadOfPad h₃ in
    let (valid, e) = decode_round_valid input size s a b c d in
    (valid, subst (AheadOfPad input k) (sym e) h₄)

-- However much fuel the loop is given, it uses all of it.
decode_loop-AheadOfPad :
    (fuel : ℕ) (input : List ℕ) (k n size padding : ℕ) (s : Scan)
    → AheadOfPad input k s.i
    → k < n
    → decode_loop fuel input n size padding s ≡ out_of_fuel
unfolding decode_loop
decode_loop-AheadOfPad zero input k n size padding s h lt = refl
decode_loop-AheadOfPad (suc fuel) input k n size padding s h lt =
    let (valid, h') = decode_round-AheadOfPad size s h in
    rw (lt→ltb s.i n (omega (arith, AheadOfPad-le h)), valid)
      (decode_loop-AheadOfPad fuel input k n size padding (decode_round input size s).1 h' lt)

padding_of-le : (input : List ℕ) (n : ℕ) → padding_of input n ≤ 2
unfolding padding_of
padding_of-le input n = ground arith

-- fs_base64_decode never returns on a padded text: where the characters before the first '=' are the
-- table's, the '=' stands within the first FS_MAX_DATA_LENGTH characters, these are at least 4, and the
-- buffer has 3 bytes for every 4 of them, and fewer than 2^32, no number of rounds is enough.
pub decode_padded_diverges :
    (cs after output : List ℕ) (size : ℕ)
    → IsText cs
    → length cs < strnlen (cs ++ b'=' ∷ after) max_data_length
    → 4 ≤ strnlen (cs ++ b'=' ∷ after) max_data_length
    → 3 * (strnlen (cs ++ b'=' ∷ after) max_data_length / 4) ≤ size
    → size < 2 ^ 32
    → (fuel : ℕ) → base64_decode fuel (cs ++ b'=' ∷ after) output size ≡ out_of_fuel
unfolding base64_decode
decode_padded_diverges cs after output size ok lt four room small fuel =
    let input = cs ++ b'=' ∷ after in
    let n = strnlen input max_data_length in
    let p = padding_of-le input n in
    rw (ltb_of_le size (size_t (3 * (n / 4) + 2 ^ 64 - padding_of input n)) (omega arith)) (
      decode_loop-AheadOfPad fuel input (length cs) n size (padding_of input n) _
        (record {
          before = [];
          text = cs;
          after = after;
          split = refl;
          at = refl;
          pad_at = omega arith;
          plain = ok;
        })
        lt)

-- ===== src/Base64/Termination.antt =====
-- Whether fs_base64_decode returns.
use trifecta_sdk.Common.{
  ℕ, zero, suc, ◌+◌, ◌-◌, ◌*◌, ◌/◌, ◌^◌, ◌≤◌, ◌<◌, ◌≡◌, ◌≢◌, refl, inl, inr, Bool, true, false,
  List, arith, ltb, size_t, if◌then◌else◌, Bool-cases, ltb→lt,
}
use trifecta_sdk.CString.{byte_at, strnlen}
use trifecta_sdk.CString.Laws.{strnlen-le}
use trifecta_sdk.RingBuffer.Bytes.{max_data_length}
use trifecta_sdk.Base64.Padding.{store_triple-i}
use trifecta_sdk.Base64.{
  Scan, sextet, decode_round, decode_loop, padding_of, out_of_fuel, base64_decode,
}
use trifecta_sdk.Base64.RoundTrip.{decode_fuel}

sextet-le : (input : List ℕ) (i : ℕ) → i ≤ (sextet input i).1
unfolding sextet
sextet-le input i = ground arith

sextet-lt : (input : List ℕ) (i : ℕ) → byte_at input i ≢ b'=' → i < (sextet input i).1
unfolding sextet
sextet-lt input i h = ground arith

either-i :
    (b : Bool) (s t : Scan)
    → t.i ≡ s.i
    → (let r : Bool × Scan = if b then (false, s) else (true, t) in r.1.i) ≡ s.i
either-i true s t e = refl
either-i false s t e = e

decode_round-i :
    (input : List ℕ) (size : ℕ) (s : Scan)
    → (decode_round input size s).1.i
      ≡ (sextet input (sextet input (sextet input (sextet input s.i).1).1).1).1
unfolding decode_round
decode_round-i input size s = either-i _ _ _ (store_triple-i size _ _ _ _ _)

-- A round that does not start at a '=' advances.
decode_round-lt :
    (input : List ℕ) (size : ℕ) (s : Scan)
    → byte_at input s.i ≢ b'='
    → s.i < (decode_round input size s).1.i
decode_round-lt input size s h =
    let i₁ = (sextet input s.i).1 in
    let i₂ = (sextet input i₁).1 in
    let i₃ = (sextet input i₂).1 in
    omega (
      arith,
      decode_round-i input size s,
      sextet-lt input s.i h,
      sextet-le input i₁,
      sextet-le input i₂,
      sextet-le input i₃,
    )

decode_loop-terminates :
    (fuel : ℕ) (input : List ℕ) (n size padding : ℕ) (s : Scan)
    → ((i : ℕ) → i < n → byte_at input i ≢ b'=')
    → n - s.i < fuel
    → decode_loop fuel input n size padding s ≢ out_of_fuel
unfolding decode_loop
decode_loop-terminates zero input n size padding s plain h = absurd (omega arith)
decode_loop-terminates (suc fuel) input n size padding s plain h = elim (Bool-cases (ltb s.i n)) [
  | inl more ↦ elim (Bool-cases (decode_round input size s).0) [
    | inl valid ↦
        rw (more, valid)
          (decode_loop-terminates fuel input n size padding (decode_round input size s).1 plain (
            omega
              (arith, ltb→lt _ _ more, decode_round-lt input size s (plain s.i (ltb→lt _ _ more)))))
    | inr bad ↦ rw (more, bad) (λ e. cc)
  ]
  | inr done ↦ rw done (λ e. cc)
]

base64_decode_with_fuel :
    (fuel : ℕ) (input output : List ℕ) (size : ℕ)
    → ((i : ℕ) → i < strnlen input max_data_length → byte_at input i ≢ b'=')
    → strnlen input max_data_length < fuel
    → base64_decode fuel input output size ≢ out_of_fuel
unfolding base64_decode
base64_decode_with_fuel fuel input output size plain h =
    let n = strnlen input max_data_length in
    elim (Bool-cases (ltb size (size_t (3 * (n / 4) + 2 ^ 64 - padding_of input n)))) [
      | inl small ↦ rw small (λ e. cc)
      | inr fits ↦ rw fits (
          decode_loop-terminates fuel input n size (padding_of input n)
            (record { i = 0; j = 0; output = output; decoded_length = 0 }) plain (omega arith))
    ]

-- fs_base64_decode returns on every text without '=': FS_MAX_DATA_LENGTH + 1 rounds are enough.
pub base64_decode-terminates :
    (input output : List ℕ) (size : ℕ)
    → ((i : ℕ) → i < strnlen input max_data_length → byte_at input i ≢ b'=')
    → base64_decode decode_fuel input output size ≢ out_of_fuel
base64_decode-terminates input output size plain =
    base64_decode_with_fuel decode_fuel input output size plain
      (omega (arith, strnlen-le input max_data_length))

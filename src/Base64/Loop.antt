-- ===== src/Base64/Loop.antt =====
-- The loop of fs_base64_decode over what fs_base64_encode writes.
use trifecta_sdk.Common.{
  ℕ, zero, suc, ◌+◌, ◌-◌, ◌*◌, ◌^◌, ◌≤◌, ◌<◌, ◌≡◌, refl, sym, ap, ◌∙◌, true, false, List, [], ◌∷◌,
  ◌++◌, append_assoc, append-nil, arith, ltb, size_t, length, take, length-append, lt→ltb,
}
use trifecta_sdk.Base64.Decoding.{Stored, decode_round-quad}
use trifecta_sdk.Base64.{Scan, quad, encode_groups, decode_round, decode_loop, Decoded, decoded}

-- The input in threes, completed by zeros as the encoder reads it.
pub triples : List ℕ → List (ℕ × ℕ × ℕ)
triples [] = []
triples (a ∷ []) = (a, 0, 0) ∷ []
triples (a ∷ b ∷ []) = (a, b, 0) ∷ []
triples (a ∷ b ∷ c ∷ rest) = (a, b, c) ∷ triples rest

pub quads : List (ℕ × ℕ × ℕ) → List ℕ
quads [] = []
quads ((a, b, c) ∷ ts) = quad a b c ++ quads ts

abbrev pub octets : List (ℕ × ℕ × ℕ) → List ℕ
octets [] = []
octets ((a, b, c) ∷ ts) = (a ∷ b ∷ c ∷ []) ++ octets ts

-- The bytes with zeros behind them, up to a multiple of three.
unfoldable pub zero_padded : List ℕ → List ℕ
unfolding triples
zero_padded xs = octets (triples xs)

abbrev pub AreBytes : List ℕ → Type 0
AreBytes [] = Unit
AreBytes (x ∷ xs) = (x < 256) × AreBytes xs

abbrev pub AreOctets : List (ℕ × ℕ × ℕ) → Type 0
AreOctets [] = Unit
AreOctets ((a, b, c) ∷ ts) = (a < 256) × (b < 256) × (c < 256) × AreOctets ts

pub encode_groups-quads : (xs : List ℕ) → encode_groups xs ≡ quads (triples xs)
unfolding encode_groups triples quads
encode_groups-quads [] = refl
encode_groups-quads (a ∷ []) = sym (append-nil (quad a 0 0))
encode_groups-quads (a ∷ b ∷ []) = sym (append-nil (quad a b 0))
encode_groups-quads (a ∷ b ∷ c ∷ rest) = ap (λ t. quad a b c ++ t) (encode_groups-quads rest)

pub triples-AreOctets : (xs : List ℕ) → AreBytes xs → AreOctets (triples xs)
unfolding triples
triples-AreOctets [] h = tt
triples-AreOctets (a ∷ []) h = (h.0, omega arith, omega arith, tt)
triples-AreOctets (a ∷ b ∷ []) h = (h.0, h.1.0, omega arith, tt)
triples-AreOctets (a ∷ b ∷ c ∷ rest) h = (h.0, h.1.0, h.1.1.0, triples-AreOctets rest h.1.1.1)

length-quad-append : (a b c : ℕ) (t : List ℕ) → length (quad a b c ++ t) ≡ 4 + length t
unfolding quad
length-quad-append a b c t = omega arith

pub length-octets : (ts : List (ℕ × ℕ × ℕ)) → length (octets ts) ≡ 3 * length ts
length-octets [] = omega arith
length-octets ((a, b, c) ∷ ts) = omega (arith, length-octets ts)

pub length-quads : (ts : List (ℕ × ℕ × ℕ)) → length (quads ts) ≡ 4 * length ts
unfolding quads
length-quads [] = omega arith
length-quads ((a, b, c) ∷ ts) = omega (arith, length-quads ts, length-quad-append a b c (quads ts))

-- What the loop has made of the buffer when it stops.
pub record Finished (s : Scan) (ts : List (ℕ × ℕ × ℕ)) (padding : ℕ) (out : List ℕ) (r : Decoded)
    : Type 0 where
  pub result :
      r ≡ decoded out (size_t (size_t (s.decoded_length + 3 * length ts) + 2 ^ 64 - padding))
  pub room : length out ≡ length s.output
  pub bytes : take (s.j + 3 * length ts) out ≡ take s.j s.output ++ octets ts

-- One round more in front of what the rest of the loop does.
Finished-step :
    {s s' : Scan} {padding : ℕ} {out : List ℕ} {r : Decoded} (a b c : ℕ) (ts : List (ℕ × ℕ × ℕ))
    → Stored
        (record s { i = s.i + 4; decoded_length = size_t (s.decoded_length + 3) })
        (a ∷ b ∷ c ∷ [])
        s'
    → Finished s' ts padding out r
    → Finished s ((a, b, c) ∷ ts) padding out r
Finished-step {s} {s'} {padding} {out} a b c ts p f = record {
  result = f.result ∙ ap (λ n. decoded out (size_t (n + 2 ^ 64 - padding))) total;
  room = f.room ∙ p.room;
  bytes =
      ap (λ n. take n out) far
      ∙ f.bytes
      ∙ ap (λ t. t ++ octets ts) p.bytes
      ∙ append_assoc (take s.j s.output) (a ∷ b ∷ c ∷ []) (octets ts);
}
  where
    total :
        size_t (s'.decoded_length + 3 * length ts) ≡ size_t (s.decoded_length + 3 * suc (length ts))
    total = omega (arith, p.counted)

    far : s.j + 3 * suc (length ts) ≡ s'.j + 3 * length ts
    far = omega (arith, p.wrote)

pub decode_loop-quads :
    (ts : List (ℕ × ℕ × ℕ)) (pre rest input : List ℕ) (fuel n size padding : ℕ) (s : Scan)
    → AreOctets ts
    → input ≡ pre ++ (quads ts ++ rest)
    → n ≡ length pre + length (quads ts)
    → s.i ≡ length pre
    → s.decoded_length < 2 ^ 64
    → length ts < fuel
    → s.j + 3 * length ts ≤ size
    → size ≤ length s.output
    → (out : List ℕ) × Finished s ts padding out (decode_loop fuel input n size padding s)
unfolding decode_loop quads
decode_loop-quads ts pre rest input zero n size padding s ok ei en e dl f h room =
    absurd (omega arith)
decode_loop-quads [] pre rest input (suc fuel) n size padding s ok ei en e dl f h room =
    let over : ltb s.i n ≡ false = ground arith in
    let none_more : s.j + 3 * 0 ≡ s.j = omega arith in
    (
      s.output,
      rw over (record {
        result = ap (λ m. decoded s.output (size_t (m + 2 ^ 64 - padding))) (omega arith);
        room = refl;
        bytes = ap (λ m. take m s.output) none_more ∙ sym (append-nil (take s.j s.output));
      }),
    )
decode_loop-quads ((a, b, c) ∷ ts) pre rest input (suc fuel) n size padding s ok ei en e dl f h
      room =
    let more : ltb s.i n ≡ true =
      lt→ltb s.i n (omega (arith, length-quad-append a b c (quads ts))) in
    let front : input ≡ pre ++ (quad a b c ++ (quads ts ++ rest)) =
      ei ∙ ap (λ t. pre ++ t) (append_assoc (quad a b c) (quads ts) rest) in
    let (valid, p) =
      decode_round-quad pre (quads ts ++ rest) a b c size s ok.0 ok.1 ok.2 e (omega arith) room in
    let s' = (decode_round input size s).1 in
    let p' : Stored (record s { i = s.i + 4; decoded_length = size_t (s.decoded_length + 3) })
        (a ∷ b ∷ c ∷ []) s' =
      rw front p in
    let (out, rest_done) =
      decode_loop-quads ts (pre ++ quad a b c) rest input fuel n size padding s' ok.3
        (front ∙ sym (append_assoc pre (quad a b c) (quads ts ++ rest)))
        (omega (arith, length-append pre (quad a b c), length-append (quad a b c) (quads ts)))
        (omega (arith, p'.read, length-append pre (quad a b c), four a b c))
        (omega (arith, p'.counted)) (omega arith) (omega (arith, p'.wrote))
        (omega (arith, p'.room)) in
    (
      out,
      rw (more, ap (λ t. (decode_round t size s).0) front ∙ valid)
          (Finished-step a b c ts p' rest_done),
    )
  where
    four : (a b c : ℕ) → length (quad a b c) ≡ 4
    four a b c = ap length (sym (append-nil (quad a b c))) ∙ length-quad-append a b c []

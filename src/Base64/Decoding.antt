-- ===== src/Base64/Decoding.antt =====
-- One round of fs_base64_decode on a group that the encoder wrote.
use trifecta_sdk.Common.{
  ℕ, ◌+◌, ◌*◌, ◌/◌, ◌%◌, ◌^◌, ◌≤◌, ◌<◌, ◌≡◌, refl, ap, ◌∙◌, true, false, List, [], ◌∷◌, ◌++◌,
  append_assoc, arith, ◌==◌, u32, size_t, length, take, length-set, length-append, take-set_next,
  get_or-append_length, lt→ltb,
}
use trifecta_sdk.CString.{byte_at}
use trifecta_sdk.Base64.Tables.{char_of, char_ne, base64_char_to_value-char}
use trifecta_sdk.Base64.{Scan, sextet, store, store_triple, decode_round, quad, invalid}

-- A table character is read as its position.
pub sextet-char :
    (input : List ℕ) (i v : ℕ) → v < 64 → byte_at input i ≡ char_of v → sextet input i ≡ (v, i + 1)
unfolding sextet
sextet-char input i v h e = ground (arith, char_ne v h, base64_char_to_value-char v h)

-- What storing the bytes `xs` does to the variables.
pub record Stored (s : Scan) (xs : List ℕ) (s' : Scan) : Type 0 where
  pub read : s'.i ≡ s.i
  pub wrote : s'.j ≡ s.j + length xs
  pub room : length s'.output ≡ length s.output
  pub bytes : take s'.j s'.output ≡ take s.j s.output ++ xs
  pub counted : s'.decoded_length ≡ s.decoded_length

store-Stored :
    (size byte : ℕ) (s : Scan)
    → s.j < size
    → size ≤ length s.output
    → Stored s (byte ∷ []) (store size byte s)
unfolding store
store-Stored size byte s h room = rw (lt→ltb _ _ h) (record {
  read = refl;
  wrote = omega arith;
  room = length-set s.output s.j byte;
  bytes = take-set_next s.output s.j byte (omega arith);
  counted = refl;
})

Stored-append :
    {s s' s'' : Scan} (xs ys : List ℕ) → Stored s xs s' → Stored s' ys s'' → Stored s (xs ++ ys) s''
Stored-append {s} {s'} xs ys p q = record {
  read = q.read ∙ p.read;
  wrote = omega (arith, p.wrote, q.wrote, length-append xs ys);
  room = q.room ∙ p.room;
  bytes = q.bytes ∙ ap (λ t. t ++ ys) p.bytes ∙ append_assoc (take s.j s.output) xs ys;
  counted = q.counted ∙ p.counted;
}

store_three :
    (size a b c : ℕ) (s : Scan)
    → s.j + 3 ≤ size
    → size ≤ length s.output
    → Stored s (a ∷ b ∷ c ∷ []) (store size c (store size b (store size a s)))
store_three size a b c s h room =
    let p = store-Stored size a s (omega arith) room in
    let q = store-Stored size b (store size a s) (omega (arith, p.wrote)) (omega (arith, p.room)) in
    let r =
      store-Stored size c (store size b (store size a s)) (omega (arith, p.wrote, q.wrote))
        (omega (arith, p.room, q.room)) in
    Stored-append (a ∷ []) (b ∷ c ∷ []) p (Stored-append (b ∷ []) (c ∷ []) q r)

-- The four sextets of three octets give the octets back.
octets_of_sextets :
    (a b c : ℕ)
    → a < 256
    → b < 256
    → c < 256
    → let t = u32 (a * 2 ^ 16 + b * 2 ^ 8 + c) in
      let t' =
        u32
          (t / 2 ^ 18 % 64 * 2 ^ 18 + t / 2 ^ 12 % 64 * 2 ^ 12 + t / 2 ^ 6 % 64 * 2 ^ 6 + t % 64) in
      (t' / 2 ^ 16 % 256 ≡ a) × (t' / 2 ^ 8 % 256 ≡ b) × (t' % 256 ≡ c)
octets_of_sextets a b c ha hb hc = omega arith

valid_sextet : (v : ℕ) → v < 64 → (v == invalid) ≡ false
valid_sextet v h = ground arith

-- A round over four table characters stores the triple that they stand for.
decode_round-chars :
    (input : List ℕ) (size u v w x : ℕ) (s : Scan)
    → (u < 64) × (v < 64) × (w < 64) × (x < 64)
    → byte_at input s.i ≡ char_of u
    → byte_at input (s.i + 1) ≡ char_of v
    → byte_at input (s.i + 1 + 1) ≡ char_of w
    → byte_at input (s.i + 1 + 1 + 1) ≡ char_of x
    → decode_round input size s
      ≡ (true, store_triple size u v w x (record s { i = s.i + 1 + 1 + 1 + 1 }))
unfolding decode_round
decode_round-chars input size u v w x s h eu ev ew ex =
    rw
      (
        sextet-char input s.i u h.0 eu,
        sextet-char input (s.i + 1) v h.1 ev,
        sextet-char input (s.i + 1 + 1) w h.2 ew,
        sextet-char input (s.i + 1 + 1 + 1) x h.3 ex,
        valid_sextet u h.0,
        valid_sextet v h.1,
        valid_sextet w h.2,
        valid_sextet x h.3,
      )
      refl

-- What storing the sextets of three octets does.
store_triple-octets :
    (a b c size : ℕ) (s : Scan)
    → a < 256
    → b < 256
    → c < 256
    → s.j + 3 ≤ size
    → size ≤ length s.output
    → let t = u32 (a * 2 ^ 16 + b * 2 ^ 8 + c) in
      Stored
        (record s { decoded_length = size_t (s.decoded_length + 3) })
        (a ∷ b ∷ c ∷ [])
        (store_triple size (t / 2 ^ 18 % 64) (t / 2 ^ 12 % 64) (t / 2 ^ 6 % 64) (t % 64) s)
unfolding store_triple
store_triple-octets a b c size s ha hb hc h room =
    let (ea, eb, ec) = octets_of_sextets a b c ha hb hc in
    let p = store_three size a b c s h room in
    rw (ea, eb, ec)
      (record {
        read = p.read;
        wrote = p.wrote;
        room = p.room;
        bytes = p.bytes;
        counted = ap (λ n. size_t (n + 3)) p.counted;
      })

module _ (pre rest : List ℕ) (u v w x : ℕ) where
  abbrev framed : List ℕ
  framed = pre ++ (u ∷ v ∷ w ∷ x ∷ rest)

  framed_bytes :
      (i : ℕ)
      → i ≡ length pre
      → (byte_at framed i ≡ u)
        × (byte_at framed (i + 1) ≡ v)
        × (byte_at framed (i + 1 + 1) ≡ w)
        × (byte_at framed (i + 1 + 1 + 1) ≡ x)
  framed_bytes i e =
      (at i 0 (omega arith), at (i + 1) 1 (omega arith), at _ 2 (omega arith), at _ 3 (omega arith))
    where
      at : (m k : ℕ) → m ≡ length pre + k → byte_at framed m ≡ byte_at (u ∷ v ∷ w ∷ x ∷ rest) k
      at m k f = ap (byte_at framed) f ∙ get_or-append_length pre (u ∷ v ∷ w ∷ x ∷ rest) k 0

-- A round on a group that the encoder wrote stores its three octets and goes on behind it.
pub decode_round-quad :
    (pre rest : List ℕ) (a b c size : ℕ) (s : Scan)
    → a < 256
    → b < 256
    → c < 256
    → s.i ≡ length pre
    → s.j + 3 ≤ size
    → size ≤ length s.output
    → let (valid, s') = decode_round (pre ++ (quad a b c ++ rest)) size s in
      (valid ≡ true)
      × Stored
          (record s { i = s.i + 4; decoded_length = size_t (s.decoded_length + 3) })
          (a ∷ b ∷ c ∷ [])
          s'
unfolding quad
decode_round-quad pre rest a b c size s ha hb hc e h room =
    let t = u32 (a * 2 ^ 16 + b * 2 ^ 8 + c) in
    let (e0, e1, e2, e3) =
      framed_bytes pre rest (char_of (t / 2 ^ 18 % 64)) (char_of (t / 2 ^ 12 % 64))
        (char_of (t / 2 ^ 6 % 64)) (char_of (t % 64)) s.i e in
    let p = store_triple-octets a b c size (record s { i = s.i + 1 + 1 + 1 + 1 }) ha hb hc h room in
    rw
      (decode_round-chars (pre ++ (quad a b c ++ rest)) size (t / 2 ^ 18 % 64) (t / 2 ^ 12 % 64)
        (t / 2 ^ 6 % 64) (t % 64) s (omega arith, omega arith, omega arith, omega arith) e0 e1 e2
        e3)
      (
        refl,
        record {
          read = p.read ∙ omega arith;
          wrote = p.wrote;
          room = p.room;
          bytes = p.bytes;
          counted = p.counted;
        },
      )

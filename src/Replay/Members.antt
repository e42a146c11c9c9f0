-- ===== src/Replay/Members.antt =====
-- Writes to the members of a packet, and what is read back.
use trifecta_sdk.Common.{
  ℕ, zero, suc, ◌+◌, ◌*◌, ◌/◌, ◌%◌, ◌^◌, ◌≤◌, ◌<◌, ◌≡◌, ◌≢◌, refl, sym, ap, ◌∙◌, ◌⊎◌, inl, inr,
  List, [], ◌∷◌, arith, length, get_or, set, length-set, ◌==◌, Bool-cases, ==_iff,
}
use trifecta_sdk.Packet.{Packet, load, member}
use trifecta_sdk.Packet.Member.{Layout, Field, number_of, offset_of, width_of, size_of}
use trifecta_sdk.Replay.Row.{write_bytes, set_member}

get_or-set_self : (xs : List ℕ) (i v d : ℕ) → i < length xs → get_or (set xs i v) i d ≡ v
get_or-set_self [] i v d h = elim h [ ]
get_or-set_self (x ∷ xs) zero v d h = refl
get_or-set_self (x ∷ xs) (suc i) v d h = get_or-set_self xs i v d (omega arith)

get_or-set_ne : (xs : List ℕ) (i j v d : ℕ) → i ≢ j → get_or (set xs i v) j d ≡ get_or xs j d
get_or-set_ne [] i j v d h = refl
get_or-set_ne (x ∷ xs) zero zero v d h = absurd (h refl)
get_or-set_ne (x ∷ xs) zero (suc j) v d h = refl
get_or-set_ne (x ∷ xs) (suc i) zero v d h = refl
get_or-set_ne (x ∷ xs) (suc i) (suc j) v d h = get_or-set_ne xs i j v d (λ e. h (ap suc e))

pub length-write_bytes : (n : ℕ) (p : Packet) (i v : ℕ) → length (write_bytes p i n v) ≡ length p
unfolding write_bytes
length-write_bytes zero p i v = refl
length-write_bytes (suc n) p i v =
    length-write_bytes n (set p i (v % 256)) (i + 1) (v / 256) ∙ length-set p i (v % 256)

byte-write_bytes :
    (n : ℕ) (p : Packet) (i j v : ℕ)
    → (j < i) ⊎ (i + n ≤ j)
    → get_or (write_bytes p i n v) j 0 ≡ get_or p j 0
unfolding write_bytes
byte-write_bytes zero p i j v h = refl
byte-write_bytes (suc n) p i j v h =
    byte-write_bytes n (set p i (v % 256)) (i + 1) j (v / 256) (ground (arith, h))
    ∙ get_or-set_ne p i j (v % 256) 0 (ground (arith, h))

-- A write leaves alone what it does not overlap.
pub load-write_bytes_apart :
    (n m : ℕ) (p : Packet) (i j v : ℕ)
    → (j + n ≤ i) ⊎ (i + m ≤ j)
    → load (write_bytes p i m v) j n ≡ load p j n
unfolding load
load-write_bytes_apart zero m p i j v h = refl
load-write_bytes_apart (suc n) m p i j v h =
    ground (arith, byte-write_bytes m p i j v, load-write_bytes_apart n m p i (j + 1) v)

-- The low `n` bytes of a value.
abbrev pub low : ℕ → ℕ → ℕ
low zero v = 0
low (suc n) v = v % 256 + 256 * low n (v / 256)

pub low4 : (v : ℕ) → low 4 v ≡ v % 2 ^ 32
low4 v = omega arith

-- A write is read back, cut to its bytes.
pub load-write_bytes :
    (n : ℕ) (p : Packet) (i v : ℕ) → i + n ≤ length p → load (write_bytes p i n v) i n ≡ low n v
unfolding load write_bytes
load-write_bytes zero p i v h = refl
load-write_bytes (suc n) p i v h =
    let p' = set p i (v % 256) in
    let first : get_or (write_bytes p' (i + 1) n (v / 256)) i 0 ≡ v % 256 =
      byte-write_bytes n p' (i + 1) i (v / 256) (inl (omega arith))
      ∙ get_or-set_self p i (v % 256) 0 (omega arith) in
    let rest = load-write_bytes n p' (i + 1) (v / 256) (omega (arith, length-set p i (v % 256))) in
    omega (arith, first, rest)

pub member_fits :
    (layout : Layout) (m : Field)
    → 0 < width_of layout m
    → offset_of layout m + width_of layout m ≤ size_of layout
unfolding offset_of width_of size_of
member_fits [] m h = elim h [ ]
member_fits ((k, n) ∷ layout) m h = ground (arith, member_fits layout m)

-- Two members of a structure lie apart.
pub members_apart :
    (layout : Layout) (m k : Field)
    → 0 < width_of layout m
    → 0 < width_of layout k
    → number_of m ≢ number_of k
    → (offset_of layout m + width_of layout m ≤ offset_of layout k)
      ⊎ (offset_of layout k + width_of layout k ≤ offset_of layout m)
unfolding offset_of width_of
members_apart [] m k h h' ne = elim h [ ]
members_apart ((x, n) ∷ layout) m k h h' ne = elim (Bool-cases (number_of x == number_of m)) [
  | inl first ↦ elim (Bool-cases (number_of x == number_of k)) [
    | inl both ↦ absurd (ne (sym ((==_iff _ _).0 first) ∙ (==_iff _ _).0 both))
    | inr other ↦ rw (first, other) (inl (omega arith))
  ]
  | inr later ↦ elim (Bool-cases (number_of x == number_of k)) [
    | inl second ↦ rw (later, second) (inr (omega arith))
    | inr other ↦
        let found = members_apart layout m k (rw later at h) (rw other at h') ne in
        rw (later, other) (elim found [ inl le ↦ inl (omega arith) | inr le ↦ inr (omega arith) ])
  ]
]

pub member-set_member :
    (layout : Layout) (m : Field) (v : ℕ) (p : Packet)
    → 0 < width_of layout m
    → size_of layout ≤ length p
    → member layout (set_member layout m v p) m ≡ low (width_of layout m) v
unfolding member set_member
member-set_member layout m v p h fits =
    load-write_bytes (width_of layout m) p (offset_of layout m) v
      (omega (arith, member_fits layout m h))

pub member-set_member_ne :
    (layout : Layout) (m k : Field) (v : ℕ) (p : Packet)
    → 0 < width_of layout m
    → 0 < width_of layout k
    → number_of m ≢ number_of k
    → member layout (set_member layout k v p) m ≡ member layout p m
unfolding member set_member
member-set_member_ne layout m k v p h h' ne =
    load-write_bytes_apart (width_of layout m) (width_of layout k) p (offset_of layout k)
      (offset_of layout m) v (members_apart layout m k h h' ne)

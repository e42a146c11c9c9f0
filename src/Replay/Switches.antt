-- ===== src/Replay/Switches.antt =====
-- The four switches of fs_replay_parse_packet over the columns.
use trifecta_sdk.Common.{
  ℕ, ◌<◌, ◌≤◌, ◌≡◌, ◌∙◌, refl, ap, Bool, true, false, some, List, arith, length, ◌%◌, ◌^◌,
}
use trifecta_sdk.Packet.{Packet, member}
use trifecta_sdk.Packet.Member.{Layout, Field, number_of, width_of, size_of}
use trifecta_sdk.Packet.Structs.{composite_packet, composite_packet_2}
use trifecta_sdk.Packet.Structs64.{composite_packet_64, composite_packet_64_2}
use trifecta_sdk.Replay.Header.{FieldId}
use trifecta_sdk.Replay.Row.{
  Numbers, float_member, assign_shared, assign_moving, assign_composite, assign_composite2,
  assign_composite64, assign_composite64_2, set_member, strtoull,
}
use trifecta_sdk.Replay.Columns.{
  IsFloatMember, HasIntegers, OtherThan, column_member, column_member-composite2,
  column_member-composite64_2, keeps-set_member, float_member-composite, float_member-composite2,
  float_member-composite64, float_member-composite64_2,
}
use trifecta_sdk.Replay.Cells.{
  IsAssign, shared-IsAssign, length-set_member, length_shared, sets_shared, keeps_shared,
  stored_float,
}

-- The members of velocity and position.
record HasMotion (layout : Layout) : Type 0 where
  vx_wide : 0 < width_of layout Field.vx
  vy_wide : 0 < width_of layout Field.vy
  vz_wide : 0 < width_of layout Field.vz
  rx_wide : 0 < width_of layout Field.rx
  ry_wide : 0 < width_of layout Field.ry
  rz_wide : 0 < width_of layout Field.rz

module _ (numbers : Numbers) (layout : Layout) (v : HasIntegers layout)
    (floats : (f : FieldId) (m : Field) → float_member f ≡ some m → IsFloatMember layout m) where
  keeps_late :
      (m k : Field) (x : ℕ) (p : Packet)
      → IsFloatMember layout m
      → 0 < width_of layout k
      → 44 < number_of k
      → member layout (set_member layout k x p) m ≡ member layout p m
  keeps_late m k x p float wide late =
      keeps-set_member numbers layout v floats m float k x p wide (ground (arith, float.plain))

  keeps_time :
      (m : Field) (x : ℕ) (p : Packet)
      → IsFloatMember layout m
      → member layout (set_member layout Field.time x p) m ≡ member layout p m
  keeps_time m x p float =
      keeps-set_member numbers layout v floats m float Field.time x p v.time
        (ground (arith, float.later))

  module _ (motion : HasMotion layout)
      (columns : (f : FieldId) (m : Field)
        → column_member f ≡ some m
        → 0 < width_of layout m
        → IsFloatMember layout m) where
    length_moving :
        (f : FieldId) (s : List ℕ) (p : Packet)
        → length (assign_moving numbers layout f s p) ≡ length p
    unfolding assign_moving
    length_moving FieldId.vx s p = length-set_member layout _ _ p
    length_moving FieldId.vy s p = length-set_member layout _ _ p
    length_moving FieldId.vz s p = length-set_member layout _ _ p
    length_moving FieldId.rx s p = length-set_member layout _ _ p
    length_moving FieldId.ry s p = length-set_member layout _ _ p
    length_moving FieldId.rz s p = length-set_member layout _ _ p
    length_moving f s p = length_shared numbers layout v floats f s p

    -- The column of a velocity stores it.
    moved :
        (f : FieldId) (k m : Field) (s : List ℕ) (p : Packet)
        → column_member f ≡ some k
        → column_member f ≡ some m
        → 0 < width_of layout m
        → size_of layout ≤ length p
        → member layout (set_member layout k (numbers.strtof s) p) m ≡ numbers.strtof s % 2 ^ 32
    moved f k m s p e e' has fits =
        let same : k ≡ m = cc in
        ap (λ k. member layout (set_member layout k (numbers.strtof s) p) m) same
        ∙ stored_float numbers layout m s p (columns f m e' has) fits

    sets_moving :
        (f : FieldId) (m : Field) (s : List ℕ) (p : Packet)
        → column_member f ≡ some m
        → 0 < width_of layout m
        → size_of layout ≤ length p
        → member layout (assign_moving numbers layout f s p) m ≡ numbers.strtof s % 2 ^ 32
    unfolding assign_moving float_member
    sets_moving FieldId.vx m s p e has fits = moved FieldId.vx Field.vx m s p refl e has fits
    sets_moving FieldId.vy m s p e has fits = moved FieldId.vy Field.vy m s p refl e has fits
    sets_moving FieldId.vz m s p e has fits = moved FieldId.vz Field.vz m s p refl e has fits
    sets_moving FieldId.rx m s p e has fits = cc
    sets_moving FieldId.ry m s p e has fits = cc
    sets_moving FieldId.rz m s p e has fits = cc
    sets_moving f m s p e has fits = sets_shared numbers layout v floats f m s p e fits

    keeps_moving :
        (f : FieldId) (m : Field) (s : List ℕ) (p : Packet)
        → IsFloatMember layout m
        → OtherThan m f
        → member layout (assign_moving numbers layout f s p) m ≡ member layout p m
    unfolding assign_moving
    keeps_moving FieldId.vx m s p float o =
        keeps-set_member numbers layout v floats m float Field.vx _ p motion.vx_wide o
    keeps_moving FieldId.vy m s p float o =
        keeps-set_member numbers layout v floats m float Field.vy _ p motion.vy_wide o
    keeps_moving FieldId.vz m s p float o =
        keeps-set_member numbers layout v floats m float Field.vz _ p motion.vz_wide o
    keeps_moving FieldId.rx m s p float o = keeps_late m _ _ p float motion.rx_wide (omega arith)
    keeps_moving FieldId.ry m s p float o = keeps_late m _ _ p float motion.ry_wide (omega arith)
    keeps_moving FieldId.rz m s p float o = keeps_late m _ _ p float motion.rz_wide (omega arith)
    keeps_moving f m s p float o = keeps_shared numbers layout v floats f m s p float o

    moving-IsAssign : IsAssign numbers layout (assign_moving numbers layout)
    moving-IsAssign = record { same_size = length_moving; sets = sets_moving; keeps = keeps_moving }

abbrev is_time : FieldId → Bool
is_time FieldId.time = true
is_time _ = false

-- A switch that stores the time and is otherwise another one.
module _ (numbers : Numbers) (layout : Layout) (v : HasIntegers layout)
    (floats : (f : FieldId) (m : Field) → float_member f ≡ some m → IsFloatMember layout m)
    (base assign : FieldId → List ℕ → Packet → Packet) (b : IsAssign numbers layout base)
    (number : List ℕ → ℕ)
    (timed : (s : List ℕ) (p : Packet)
      → assign FieldId.time s p ≡ set_member layout Field.time (number s) p)
    (based : (f : FieldId) (s : List ℕ) (p : Packet)
      → is_time f ≡ false
      → assign f s p ≡ base f s p) where
  length_timed : (f : FieldId) (s : List ℕ) (p : Packet) → length (assign f s p) ≡ length p
  length_timed FieldId.time s p = ap length (timed s p) ∙ length-set_member layout _ _ p
  length_timed f s p = ap length (based f s p refl) ∙ b.same_size f s p

  sets_timed :
      (f : FieldId) (m : Field) (s : List ℕ) (p : Packet)
      → column_member f ≡ some m
      → 0 < width_of layout m
      → size_of layout ≤ length p
      → member layout (assign f s p) m ≡ numbers.strtof s % 2 ^ 32
  sets_timed FieldId.time m s p e has fits = cc
  sets_timed f m s p e has fits =
      ap (λ p. member layout p m) (based f s p refl) ∙ b.sets f m s p e has fits

  keeps_timed :
      (f : FieldId) (m : Field) (s : List ℕ) (p : Packet)
      → IsFloatMember layout m
      → OtherThan m f
      → member layout (assign f s p) m ≡ member layout p m
  keeps_timed FieldId.time m s p float o =
      ap (λ p. member layout p m) (timed s p) ∙ keeps_time numbers layout v floats m _ p float
  keeps_timed f m s p float o =
      ap (λ p. member layout p m) (based f s p refl) ∙ b.keeps f m s p float o

  timed-IsAssign : IsAssign numbers layout assign
  timed-IsAssign = record { same_size = length_timed; sets = sets_timed; keeps = keeps_timed }

composite-HasIntegers : HasIntegers composite_packet
unfolding width_of
composite-HasIntegers = omega arith

based_composite :
    (numbers : Numbers) (f : FieldId) (s : List ℕ) (p : Packet)
    → is_time f ≡ false
    → assign_composite numbers f s p ≡ assign_shared numbers composite_packet f s p
unfolding assign_composite
based_composite numbers FieldId.time s p h = cc
based_composite numbers f s p h = refl

agree_composite :
    (f : FieldId) (m : Field)
    → column_member f ≡ some m
    → 0 < width_of composite_packet m
    → float_member f ≡ some m
unfolding width_of float_member
agree_composite FieldId.vx m e has = ground arith
agree_composite FieldId.vy m e has = ground arith
agree_composite FieldId.vz m e has = ground arith
agree_composite f m e has = e

pub composite-IsAssign :
    (numbers : Numbers) → IsAssign numbers composite_packet (assign_composite numbers)
unfolding assign_composite
composite-IsAssign numbers =
    timed-IsAssign numbers composite_packet composite-HasIntegers float_member-composite
      (assign_shared numbers composite_packet) (assign_composite numbers)
      (shared-IsAssign numbers composite_packet composite-HasIntegers float_member-composite
        agree_composite)
      (λ s. strtoull s % 2 ^ 32) (λ s p. refl) (based_composite numbers)

composite2-HasIntegers : HasIntegers composite_packet_2
unfolding width_of
composite2-HasIntegers = omega arith

based_composite2 :
    (numbers : Numbers) (f : FieldId) (s : List ℕ) (p : Packet)
    → is_time f ≡ false
    → assign_composite2 numbers f s p ≡ assign_moving numbers composite_packet_2 f s p
unfolding assign_composite2
based_composite2 numbers FieldId.time s p h = cc
based_composite2 numbers f s p h = refl

composite2-HasMotion : HasMotion composite_packet_2
unfolding width_of
composite2-HasMotion = omega arith

pub composite2-IsAssign :
    (numbers : Numbers) → IsAssign numbers composite_packet_2 (assign_composite2 numbers)
unfolding assign_composite2
composite2-IsAssign numbers =
    timed-IsAssign numbers composite_packet_2 composite2-HasIntegers float_member-composite2
      (assign_moving numbers composite_packet_2) (assign_composite2 numbers)
      (moving-IsAssign numbers composite_packet_2 composite2-HasIntegers float_member-composite2
        composite2-HasMotion column_member-composite2)
      (λ s. strtoull s % 2 ^ 32) (λ s p. refl) (based_composite2 numbers)

composite64-HasIntegers : HasIntegers composite_packet_64
unfolding width_of
composite64-HasIntegers = omega arith

based_composite64 :
    (numbers : Numbers) (f : FieldId) (s : List ℕ) (p : Packet)
    → is_time f ≡ false
    → assign_composite64 numbers f s p ≡ assign_shared numbers composite_packet_64 f s p
unfolding assign_composite64
based_composite64 numbers FieldId.time s p h = cc
based_composite64 numbers f s p h = refl

agree_composite64 :
    (f : FieldId) (m : Field)
    → column_member f ≡ some m
    → 0 < width_of composite_packet_64 m
    → float_member f ≡ some m
unfolding width_of float_member
agree_composite64 FieldId.vx m e has = ground arith
agree_composite64 FieldId.vy m e has = ground arith
agree_composite64 FieldId.vz m e has = ground arith
agree_composite64 f m e has = e

pub composite64-IsAssign :
    (numbers : Numbers) → IsAssign numbers composite_packet_64 (assign_composite64 numbers)
unfolding assign_composite64
composite64-IsAssign numbers =
    timed-IsAssign numbers composite_packet_64 composite64-HasIntegers float_member-composite64
      (assign_shared numbers composite_packet_64) (assign_composite64 numbers)
      (shared-IsAssign numbers composite_packet_64 composite64-HasIntegers float_member-composite64
        agree_composite64)
      (λ s. strtoull s) (λ s p. refl) (based_composite64 numbers)

composite64_2-HasIntegers : HasIntegers composite_packet_64_2
unfolding width_of
composite64_2-HasIntegers = omega arith

based_composite64_2 :
    (numbers : Numbers) (f : FieldId) (s : List ℕ) (p : Packet)
    → is_time f ≡ false
    → assign_composite64_2 numbers f s p ≡ assign_moving numbers composite_packet_64_2 f s p
unfolding assign_composite64_2
based_composite64_2 numbers FieldId.time s p h = cc
based_composite64_2 numbers f s p h = refl

composite64_2-HasMotion : HasMotion composite_packet_64_2
unfolding width_of
composite64_2-HasMotion = omega arith

pub composite64_2-IsAssign :
    (numbers : Numbers) → IsAssign numbers composite_packet_64_2 (assign_composite64_2 numbers)
unfolding assign_composite64_2
composite64_2-IsAssign numbers =
    timed-IsAssign numbers composite_packet_64_2 composite64_2-HasIntegers
      float_member-composite64_2 (assign_moving numbers composite_packet_64_2)
      (assign_composite64_2 numbers)
      (moving-IsAssign numbers composite_packet_64_2 composite64_2-HasIntegers
        float_member-composite64_2 composite64_2-HasMotion column_member-composite64_2)
      (λ s. strtoull s) (λ s p. refl) (based_composite64_2 numbers)

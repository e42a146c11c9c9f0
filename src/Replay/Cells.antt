-- ===== src/Replay/Cells.antt =====
-- The loop of fs_replay_parse_packet over the columns.
use trifecta_sdk.Common.{
  ℕ, ◌+◌, ◌*◌, ◌%◌, ◌^◌, ◌≤◌, ◌<◌, ◌≡◌, refl, ap, ◌∙◌, Option, none, some, List, arith, length,
}
use trifecta_sdk.Packet.{Packet, member}
use trifecta_sdk.Packet.Member.{Layout, Field, offset_of, width_of, size_of}
use trifecta_sdk.Replay.Header.{FieldId}
use trifecta_sdk.Replay.Row.{
  Numbers, float_member, assign_integer, assign_shared, set_member, set_temperature,
}
use trifecta_sdk.Replay.Members.{low, low4, member-set_member, length-write_bytes}
use trifecta_sdk.Replay.Columns.{
  IsFloatMember, HasIntegers, Apart, OtherThan, column_member, keeps-set_member,
  keeps-assign_integer,
}

pub length-set_member :
    (layout : Layout) (m : Field) (x : ℕ) (p : Packet) → length (set_member layout m x p) ≡ length p
unfolding set_member
length-set_member layout m x p = length-write_bytes (width_of layout m) p (offset_of layout m) x

length-set_temperature :
    (layout : Layout) (i x : ℕ) (p : Packet) → length (set_temperature layout i x p) ≡ length p
unfolding set_temperature
length-set_temperature layout i x p =
    length-write_bytes 2 p (offset_of layout Field.temperature + 2 * i) x

length-assign_integer :
    (layout : Layout) (f : FieldId) (s : List ℕ) (p : Packet)
    → length (assign_integer layout f s p) ≡ length p
unfolding assign_integer
length-assign_integer layout FieldId.temp0 s p = length-set_temperature layout 0 _ p
length-assign_integer layout FieldId.temp1 s p = length-set_temperature layout 1 _ p
length-assign_integer layout FieldId.temp2 s p = length-set_temperature layout 2 _ p
length-assign_integer layout FieldId.diag s p = length-set_member layout _ _ p
length-assign_integer layout FieldId.devicemotion s p = length-set_member layout _ _ p
length-assign_integer layout _ s p = refl

-- A switch over the columns: a column of a float that the structure has stores the number of its cell
-- there, and no other column changes that member.
pub record IsAssign (numbers : Numbers) (layout : Layout)
    (assign : FieldId → List ℕ → Packet → Packet) : Type 0 where
  pub same_size : (f : FieldId) (s : List ℕ) (p : Packet) → length (assign f s p) ≡ length p
  pub sets :
      (f : FieldId) (m : Field) (s : List ℕ) (p : Packet)
      → column_member f ≡ some m
      → 0 < width_of layout m
      → size_of layout ≤ length p
      → member layout (assign f s p) m ≡ numbers.strtof s % 2 ^ 32
  pub keeps :
      (f : FieldId) (m : Field) (s : List ℕ) (p : Packet)
      → IsFloatMember layout m
      → OtherThan m f
      → member layout (assign f s p) m ≡ member layout p m

pub stored_float :
    (numbers : Numbers) (layout : Layout) (m : Field) (s : List ℕ) (p : Packet)
    → IsFloatMember layout m
    → size_of layout ≤ length p
    → member layout (set_member layout m (numbers.strtof s) p) m ≡ numbers.strtof s % 2 ^ 32
stored_float numbers layout m s p float fits =
    member-set_member layout m (numbers.strtof s) p (omega (arith, float.wide)) fits
    ∙ ap (λ n. low n (numbers.strtof s)) float.wide
    ∙ low4 (numbers.strtof s)

-- A column that is apart from a member in the table is so in the cases that the switches share.
OtherThan-float_member : (m : Field) (f : FieldId) → OtherThan m f → Apart m (float_member f)
unfolding float_member
OtherThan-float_member m FieldId.vx h = tt
OtherThan-float_member m FieldId.vy h = tt
OtherThan-float_member m FieldId.vz h = tt
OtherThan-float_member m f h = h

module _ (numbers : Numbers) (layout : Layout) (v : HasIntegers layout)
    (floats : (f : FieldId) (m : Field) → float_member f ≡ some m → IsFloatMember layout m) where
  shared_by :
      (f : FieldId) (s : List ℕ) (p : Packet) (o : Option Field)
      → float_member f ≡ o
      → assign_shared numbers layout f s p ≡ elim o [
        | some m ↦ set_member layout m (numbers.strtof s) p
        | none ↦ assign_integer layout f s p
      ]
  unfolding assign_shared
  shared_by f s p o e =
      ap
        (λ (o : Option Field).
          let p' : Packet = elim o [
            | some m ↦ set_member layout m (numbers.strtof s) p
            | none ↦ assign_integer layout f s p
          ] in
          p')
        e

  length_by :
      (f : FieldId) (s : List ℕ) (p : Packet) (o : Option Field)
      → float_member f ≡ o
      → length (assign_shared numbers layout f s p) ≡ length p
  length_by f s p none e = ap length (shared_by f s p none e) ∙ length-assign_integer layout f s p
  length_by f s p (some m) e =
      ap length (shared_by f s p (some m) e) ∙ length-set_member layout m _ p

  pub length_shared :
      (f : FieldId) (s : List ℕ) (p : Packet)
      → length (assign_shared numbers layout f s p) ≡ length p
  length_shared f s p = length_by f s p (float_member f) refl

  pub sets_shared :
      (f : FieldId) (m : Field) (s : List ℕ) (p : Packet)
      → float_member f ≡ some m
      → size_of layout ≤ length p
      → member layout (assign_shared numbers layout f s p) m ≡ numbers.strtof s % 2 ^ 32
  sets_shared f m s p e fits =
      ap (λ p. member layout p m) (shared_by f s p (some m) e)
      ∙ stored_float numbers layout m s p (floats f m e) fits

  keeps_by :
      (f : FieldId) (m : Field) (s : List ℕ) (p : Packet) (o : Option Field)
      → float_member f ≡ o
      → IsFloatMember layout m
      → Apart m o
      → member layout (assign_shared numbers layout f s p) m ≡ member layout p m
  keeps_by f m s p none e float other =
      ap (λ p. member layout p m) (shared_by f s p none e)
      ∙ keeps-assign_integer numbers layout v floats m float f s p
  keeps_by f m s p (some k) e float other =
      ap (λ p. member layout p m) (shared_by f s p (some k) e)
      ∙ keeps-set_member numbers layout v floats m float k (numbers.strtof s) p
          (omega (arith, (floats f k e).wide)) other

  pub keeps_shared :
      (f : FieldId) (m : Field) (s : List ℕ) (p : Packet)
      → IsFloatMember layout m
      → OtherThan m f
      → member layout (assign_shared numbers layout f s p) m ≡ member layout p m
  keeps_shared f m s p float other =
      keeps_by f m s p (float_member f) refl float (OtherThan-float_member m f other)

  pub shared-IsAssign :
      ((f : FieldId) (m : Field)
        → column_member f ≡ some m
        → 0 < width_of layout m
        → float_member f ≡ some m)
      → IsAssign numbers layout (assign_shared numbers layout)
  shared-IsAssign agree = record {
    same_size = length_shared;
    sets = λ f m s p e has fits. sets_shared f m s p (agree f m e has) fits;
    keeps = keeps_shared;
  }

-- ===== src/Replay/Columns.antt =====
-- The cells of a line and the members of the packet that fs_replay_parse_packet makes of them.
use trifecta_sdk.Common.{
  ℕ, ◌+◌, ◌*◌, ◌<◌, ◌≤◌, ◌≡◌, ◌≢◌, refl, ◌⊎◌, Option, none, some, List, arith,
}
use trifecta_sdk.Packet.{Packet, member}
use trifecta_sdk.Packet.Member.{Layout, Field, number_of, offset_of, width_of}
use trifecta_sdk.Packet.Structs.{composite_packet, composite_packet_2}
use trifecta_sdk.Packet.Structs64.{composite_packet_64, composite_packet_64_2}
use trifecta_sdk.Replay.Header.{FieldId}
use trifecta_sdk.Replay.Row.{Numbers, float_member, assign_integer, set_member, set_temperature}
use trifecta_sdk.Replay.Members.{member-set_member_ne, members_apart, load-write_bytes_apart}

-- The float that a column is meant for: Ax0 to Gz2, Q0 to Q3, the mean rates OmegaX0 to OmegaZ0, the
-- accelerations AccX to AccZ, MagX to MagZ, the pressure, and the velocities Vx to Vz, which only the
-- structures of the second kind have.
abbrev pub column_member : FieldId → Option Field
column_member FieldId.ax0 = some Field.ax0
column_member FieldId.ay0 = some Field.ay0
column_member FieldId.az0 = some Field.az0
column_member FieldId.gx0 = some Field.gx0
column_member FieldId.gy0 = some Field.gy0
column_member FieldId.gz0 = some Field.gz0
column_member FieldId.ax1 = some Field.ax1
column_member FieldId.ay1 = some Field.ay1
column_member FieldId.az1 = some Field.az1
column_member FieldId.gx1 = some Field.gx1
column_member FieldId.gy1 = some Field.gy1
column_member FieldId.gz1 = some Field.gz1
column_member FieldId.ax2 = some Field.ax2
column_member FieldId.ay2 = some Field.ay2
column_member FieldId.az2 = some Field.az2
column_member FieldId.gx2 = some Field.gx2
column_member FieldId.gy2 = some Field.gy2
column_member FieldId.gz2 = some Field.gz2
column_member FieldId.q0 = some Field.q0
column_member FieldId.q1 = some Field.q1
column_member FieldId.q2 = some Field.q2
column_member FieldId.q3 = some Field.q3
column_member FieldId.omegax0 = some Field.omega_x0
column_member FieldId.omegy0 = some Field.omega_y0
column_member FieldId.omegaz0 = some Field.omega_z0
column_member FieldId.accx = some Field.acc_x
column_member FieldId.accy = some Field.acc_y
column_member FieldId.accz = some Field.acc_z
column_member FieldId.magx = some Field.mag_x
column_member FieldId.magy = some Field.mag_y
column_member FieldId.magz = some Field.mag_z
column_member FieldId.baro = some Field.barometric_pressure
column_member FieldId.vx = some Field.vx
column_member FieldId.vy = some Field.vy
column_member FieldId.vz = some Field.vz
column_member _ = none

-- Where the float members stand in a structure, and which members they are not.
pub record IsFloatMember (layout : Layout) (m : Field) : Type 0 where
  pub wide : width_of layout m ≡ 4
  pub later : 1 < number_of m
  pub plain : (number_of m < 33) ⊎ ((38 ≤ number_of m) × (number_of m < 45))

pub float_member-composite :
    (f : FieldId) (m : Field) → float_member f ≡ some m → IsFloatMember composite_packet m
unfolding float_member width_of
float_member-composite FieldId.no_field m e = cc
float_member-composite _ m e = ground arith

pub float_member-composite2 :
    (f : FieldId) (m : Field) → float_member f ≡ some m → IsFloatMember composite_packet_2 m
unfolding float_member width_of
float_member-composite2 FieldId.no_field m e = cc
float_member-composite2 _ m e = ground arith

pub float_member-composite64 :
    (f : FieldId) (m : Field) → float_member f ≡ some m → IsFloatMember composite_packet_64 m
unfolding float_member width_of
float_member-composite64 FieldId.no_field m e = cc
float_member-composite64 _ m e = ground arith

pub float_member-composite64_2 :
    (f : FieldId) (m : Field) → float_member f ≡ some m → IsFloatMember composite_packet_64_2 m
unfolding float_member width_of
float_member-composite64_2 FieldId.no_field m e = cc
float_member-composite64_2 _ m e = ground arith

pub column_member-composite :
    (f : FieldId) (m : Field)
    → column_member f ≡ some m
    → 0 < width_of composite_packet m
    → IsFloatMember composite_packet m
unfolding width_of
column_member-composite FieldId.no_field m e h = cc
column_member-composite _ m e h = ground arith

pub column_member-composite2 :
    (f : FieldId) (m : Field)
    → column_member f ≡ some m
    → 0 < width_of composite_packet_2 m
    → IsFloatMember composite_packet_2 m
unfolding width_of
column_member-composite2 FieldId.no_field m e h = cc
column_member-composite2 _ m e h = ground arith

pub column_member-composite64 :
    (f : FieldId) (m : Field)
    → column_member f ≡ some m
    → 0 < width_of composite_packet_64 m
    → IsFloatMember composite_packet_64 m
unfolding width_of
column_member-composite64 FieldId.no_field m e h = cc
column_member-composite64 _ m e h = ground arith

pub column_member-composite64_2 :
    (f : FieldId) (m : Field)
    → column_member f ≡ some m
    → 0 < width_of composite_packet_64_2 m
    → IsFloatMember composite_packet_64_2 m
unfolding width_of
column_member-composite64_2 FieldId.no_field m e h = cc
column_member-composite64_2 _ m e h = ground arith

-- The members that the integers are stored in.
pub record HasIntegers (layout : Layout) : Type 0 where
  pub time : 0 < width_of layout Field.time
  pub temperature : width_of layout Field.temperature ≡ 6
  pub status : 0 < width_of layout Field.device_motion_status
  pub flag : 0 < width_of layout Field.diagnostic_flag

-- A column that stores no float, or one in another member.
abbrev pub Apart : Field → Option Field → Type 0
Apart m none = Unit
Apart m (some k) = number_of m ≢ number_of k

abbrev pub OtherThan : Field → FieldId → Type 0
OtherThan m f = Apart m (column_member f)

module _ (numbers : Numbers) (layout : Layout) (v : HasIntegers layout)
    (floats : (f : FieldId) (m : Field) → float_member f ≡ some m → IsFloatMember layout m)
    (m : Field) (float : IsFloatMember layout m) where
  pub keeps-set_member :
      (k : Field) (x : ℕ) (p : Packet)
      → 0 < width_of layout k
      → number_of m ≢ number_of k
      → member layout (set_member layout k x p) m ≡ member layout p m
  keeps-set_member k x p h ne = member-set_member_ne layout m k x p (omega (arith, float.wide)) h ne

  keeps-set_temperature :
      (i x : ℕ) (p : Packet)
      → i < 3
      → member layout (set_temperature layout i x p) m ≡ member layout p m
  unfolding set_temperature member
  keeps-set_temperature i x p h =
      load-write_bytes_apart (width_of layout m) 2 p (offset_of layout Field.temperature + 2 * i)
        (offset_of layout m) x
        (ground
          (arith, float.wide, float.plain, v.temperature, members_apart layout m Field.temperature))

  pub keeps-assign_integer :
      (f : FieldId) (s : List ℕ) (p : Packet)
      → member layout (assign_integer layout f s p) m ≡ member layout p m
  unfolding assign_integer
  keeps-assign_integer FieldId.temp0 s p = keeps-set_temperature 0 _ p (omega arith)
  keeps-assign_integer FieldId.temp1 s p = keeps-set_temperature 1 _ p (omega arith)
  keeps-assign_integer FieldId.temp2 s p = keeps-set_temperature 2 _ p (omega arith)
  keeps-assign_integer FieldId.diag s p =
      keeps-set_member Field.diagnostic_flag _ p v.flag (ground (arith, float.plain))
  keeps-assign_integer FieldId.devicemotion s p =
      keeps-set_member Field.device_motion_status _ p v.status (ground (arith, float.plain))
  keeps-assign_integer _ s p = refl

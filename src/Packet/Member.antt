-- ===== src/Packet/Member.antt =====
-- The members of the packed packet structures, and where a member stands in a structure.
use trifecta_sdk.Common.{ℕ, ◌+◌, List, [], ◌∷◌, ◌==◌, if◌then◌else◌}

pub data Field : Type 0 where
  type time ax0 ay0 az0 gx0 gy0 gz0 : Field
  ax1 ay1 az1 gx1 gy1 gz1 ax2 ay2 : Field
  az2 gx2 gy2 gz2 q0 q1 q2 q3 : Field
  mag_x mag_y mag_z acc_x acc_y acc_z omega_x0 omega_y0 : Field
  omega_z0 temperature device_motion_status diagnostic_flag reserved c barometric_pressure
        reserved_0_1 :
      Field
  reserved_0_2 reserved_0_3 vx vy vz rx ry rz : Field

-- A number for each member, to compare them by.
abbrev pub number_of : Field → ℕ
number_of type = 0
number_of time = 1
number_of ax0 = 2
number_of ay0 = 3
number_of az0 = 4
number_of gx0 = 5
number_of gy0 = 6
number_of gz0 = 7
number_of ax1 = 8
number_of ay1 = 9
number_of az1 = 10
number_of gx1 = 11
number_of gy1 = 12
number_of gz1 = 13
number_of ax2 = 14
number_of ay2 = 15
number_of az2 = 16
number_of gx2 = 17
number_of gy2 = 18
number_of gz2 = 19
number_of q0 = 20
number_of q1 = 21
number_of q2 = 22
number_of q3 = 23
number_of mag_x = 24
number_of mag_y = 25
number_of mag_z = 26
number_of acc_x = 27
number_of acc_y = 28
number_of acc_z = 29
number_of omega_x0 = 30
number_of omega_y0 = 31
number_of omega_z0 = 32
number_of temperature = 33
number_of device_motion_status = 34
number_of diagnostic_flag = 35
number_of reserved = 36
number_of c = 37
number_of barometric_pressure = 38
number_of reserved_0_1 = 39
number_of reserved_0_2 = 40
number_of reserved_0_3 = 41
number_of vx = 42
number_of vy = 43
number_of vz = 44
number_of rx = 45
number_of ry = 46
number_of rz = 47

abbrev pub Layout : Type 0
Layout = List (Field × ℕ)

unfoldable pub size_of : Layout → ℕ
size_of [] = 0
size_of ((m, n) ∷ rest) = n + size_of rest

-- The position of a member; packed structures have no gaps.
unfoldable pub offset_of : Layout → Field → ℕ
offset_of [] m = 0
offset_of ((k, n) ∷ rest) m = if number_of k == number_of m then 0 else n + offset_of rest m

-- 0 for a member that the structure does not have.
unfoldable pub width_of : Layout → Field → ℕ
width_of [] m = 0
width_of ((k, n) ∷ rest) m = if number_of k == number_of m then n else width_of rest m

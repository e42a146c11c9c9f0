-- ===== src/Packet/Accessors.antt =====
-- common/FS_Trifecta_Packet_Utils.c, and fs_q_to_euler_angles and fs_eulers_from_quaternion of
-- common/FS_Trifecta_Device.c. `none` is the return of -1, which leaves the output as it was.
use trifecta_sdk.Common.{Bool, true, Option, none, some, if◌then◌else◌}
use trifecta_sdk.Floats.{Floats, Vector3, Quaternion}
use trifecta_sdk.Packet.Member.{
  Field, Layout, q0, q1, q2, mag_x, mag_y, mag_z, acc_x, acc_y, acc_z, omega_x0, omega_y0, omega_z0,
  barometric_pressure, vx, vy, vz, rx, ry, rz,
}
use trifecta_sdk.Packet.Structs.{composite_packet, regular_packet, composite_packet_2}
use trifecta_sdk.Packet.{Packet, composite, regular, composite2, family_of, packet_type, member}

module _ (fl : Floats) where
  open fl use {
    Float, Double, float_of_bits, double_of_bits, literal, add, sub, mul, div, neg, atan2f, asinf,
  }

  abbrev pub float_member : Layout → Packet → Field → Float
  float_member layout p m = float_of_bits (member layout p m)

  abbrev pub vector : Layout → Packet → Field → Field → Field → Vector3 Float
  vector layout p k m n = record {
    x = float_member layout p k;
    y = float_member layout p m;
    z = float_member layout p n;
  }

  abbrev pub double_vector : Layout → Packet → Field → Field → Field → Vector3 Double
  double_vector layout p k m n = record {
    x = double_of_bits (member layout p k);
    y = double_of_bits (member layout p m);
    z = double_of_bits (member layout p n);
  }

  -- `fs_q_to_euler_angles`.
  unfoldable pub q_to_euler_angles : Float → Float → Float → Float → Bool → Vector3 Float
  q_to_euler_angles a b c d degrees =
      let half = literal 1 2 in
      let roll = atan2f (add (mul a b) (mul c d)) (sub (sub half (mul b b)) (mul c c)) in
      let pitch = asinf (mul (neg (literal 2 1)) (sub (mul b d) (mul a c))) in
      let yaw = atan2f (add (mul b c) (mul a d)) (sub (sub half (mul c c)) (mul d d)) in
      let factor = div (literal 180 1) (literal 314_159_265_358_979 100_000_000_000_000) in
      if degrees
      then record { x = mul roll factor; y = mul pitch factor; z = mul yaw factor }
      else record { x = roll; y = pitch; z = yaw }

  -- `fs_eulers_from_quaternion`.
  unfoldable pub eulers_from_quaternion : Quaternion Float → Vector3 Float
  eulers_from_quaternion q = q_to_euler_angles q.w q.x q.y q.z true

  -- The call that each case makes: the third component stands in the place of the fourth too.
  abbrev euler_of : Layout → Packet → Vector3 Float
  euler_of layout p =
      q_to_euler_angles (float_member layout p q0) (float_member layout p q1)
        (float_member layout p q2) (float_member layout p q2) true

  unfoldable pub euler_angles_from_packet : Packet → Option (Vector3 Float)
  euler_angles_from_packet p = elim (family_of (packet_type p)) [
    | composite ↦ some (euler_of composite_packet p)
    | regular ↦ some (euler_of regular_packet p)
    | composite2 ↦ some (euler_of composite_packet_2 p)
    | _ ↦ none
  ]

  unfoldable pub lat_long_from_packet : Packet → Option (Vector3 Double)
  lat_long_from_packet p = elim (family_of (packet_type p)) [
    | composite2 ↦ some (double_vector composite_packet_2 p rx ry rz)
    | _ ↦ none
  ]

  unfoldable pub angular_velocity_from_packet : Packet → Option (Vector3 Float)
  angular_velocity_from_packet p = elim (family_of (packet_type p)) [
    | composite ↦ some (vector composite_packet p omega_x0 omega_y0 omega_z0)
    | regular ↦ some (vector regular_packet p omega_x0 omega_y0 omega_z0)
    | composite2 ↦ some (vector composite_packet_2 p omega_x0 omega_y0 omega_z0)
    | _ ↦ none
  ]

  -- `acc * FS_ACCEL_SCALER_Gs / (float)INT16_MAX`.
  abbrev pub scaled_acceleration : Vector3 Float → Vector3 Float
  scaled_acceleration v =
      let scale = λ (a : Float). div (mul a (literal 4 1)) (literal 32767 1) in
      record { x = scale v.x; y = scale v.y; z = scale v.z }

  -- The third case reads through the first structure, as the source does.
  unfoldable pub acceleration_from_packet : Packet → Option (Vector3 Float)
  acceleration_from_packet p = elim (family_of (packet_type p)) [
    | composite ↦ some (scaled_acceleration (vector composite_packet p acc_x acc_y acc_z))
    | regular ↦ some (scaled_acceleration (vector regular_packet p acc_x acc_y acc_z))
    | composite2 ↦ some (scaled_acceleration (vector composite_packet p acc_x acc_y acc_z))
    | _ ↦ none
  ]

  unfoldable pub magnetic_field_from_packet : Packet → Option (Vector3 Float)
  magnetic_field_from_packet p = elim (family_of (packet_type p)) [
    | composite ↦ some (vector composite_packet p mag_x mag_y mag_z)
    | regular ↦ some (vector regular_packet p mag_x mag_y mag_z)
    | composite2 ↦ some (vector composite_packet_2 p mag_x mag_y mag_z)
    | _ ↦ none
  ]

  unfoldable pub barometric_pressure_from_packet : Packet → Option Float
  barometric_pressure_from_packet p = elim (family_of (packet_type p)) [
    | composite ↦ some (float_member composite_packet p barometric_pressure)
    | regular ↦ some (float_member regular_packet p barometric_pressure)
    | composite2 ↦ some (float_member composite_packet_2 p barometric_pressure)
    | _ ↦ none
  ]

  unfoldable pub velocity_from_packet : Packet → Option (Vector3 Float)
  velocity_from_packet p = elim (family_of (packet_type p)) [
    | composite2 ↦ some (vector composite_packet_2 p vx vy vz)
    | _ ↦ none
  ]

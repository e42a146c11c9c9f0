-- ===== src/Device/Getters.antt =====
-- common/FS_Trifecta_Device.c: the readings of the last received packet. `none` is the return of -1,
-- which leaves the caller's buffer as it was.
use trifecta_sdk.Common.{ℕ, ◌==◌, ◌||◌, Bool, Option, none, some, if◌then◌else◌}
use trifecta_sdk.Floats.{Floats, Vector3, Quaternion}
use trifecta_sdk.Packet.Member.{
  Layout, q0, q1, q2, q3, mag_x, mag_y, mag_z, acc_x, acc_y, acc_z, omega_x0, omega_y0, omega_z0,
  device_motion_status, vx, vy, vz, rx, ry, rz,
}
use trifecta_sdk.Packet.Structs.{composite_packet, regular_packet, composite_packet_2}
use trifecta_sdk.Packet.Accessors.{
  float_member, vector, double_vector, q_to_euler_angles, scaled_acceleration,
}
use trifecta_sdk.Packet.{
  Packet, Family, composite, regular, composite2, composite64, regular64, composite64_2, other,
  family_of, packet_type, member,
}
use trifecta_sdk.Device.{Device, RunStatus, idle, running}

-- The structure that a reading of these packet types goes through.
unfoldable pub layout_for : Family → Option Layout
layout_for composite = some composite_packet
layout_for regular = some regular_packet
layout_for composite2 = some composite_packet_2
layout_for composite64 = none
layout_for regular64 = none
layout_for composite64_2 = none
layout_for other = none

unfoldable pub layout_of : Packet → Option Layout
layout_of p = layout_for (family_of (packet_type p))

-- INS and RESERVED of the three families: the types that have a position and a velocity.
unfoldable pub has_position : ℕ → Bool
has_position t = t == 2 || t == 6 || t == 10 || t == 3 || t == 7 || t == 11

-- `fs_get_movement_state`.
unfoldable pub get_movement_state : Device → Option RunStatus
get_movement_state dev =
    let pkt = dev.last_received_packet in
    elim (layout_of pkt) [
      | none ↦ none
      | some layout ↦ some (if member layout pkt device_motion_status == 1 then idle else running)
    ]

module _ (fl : Floats) where
  open fl use {Float, Double, literal, mul, div}

  -- `fs_get_orientation`.
  unfoldable pub get_orientation : Device → Option (Quaternion Float)
  get_orientation dev =
      let pkt = dev.last_received_packet in
      if dev.packet_buf_queue.count == 0 then none else elim (layout_of pkt) [
        | none ↦ none
        | some layout ↦ some (record {
          w = float_member fl layout pkt q0;
          x = float_member fl layout pkt q1;
          y = float_member fl layout pkt q2;
          z = float_member fl layout pkt q3;
        })
      ]

  -- `fs_get_orientation_euler`.
  unfoldable pub get_orientation_euler : Device → Bool → Option (Vector3 Float)
  get_orientation_euler dev degrees = elim (get_orientation dev) [
    | none ↦ none
    | some quat ↦ some (q_to_euler_angles fl quat.w quat.x quat.y quat.z degrees)
  ]

  -- `fs_get_acceleration`.
  unfoldable pub get_acceleration : Device → Option (Vector3 Float)
  get_acceleration dev =
      let pkt = dev.last_received_packet in
      elim (layout_of pkt) [
        | none ↦ none
        | some layout ↦ some (scaled_acceleration fl (vector fl layout pkt acc_x acc_y acc_z))
      ]

  -- `omega * FS_GYRO_SCALER_DPS / (float)INT16_MAX`.
  abbrev pub scaled_rate : Vector3 Float → Vector3 Float
  scaled_rate v =
      let scale = λ (a : Float). div (mul a (literal 500 1)) (literal 32767 1) in
      record { x = scale v.x; y = scale v.y; z = scale v.z }

  -- `fs_get_angular_velocity`.
  unfoldable pub get_angular_velocity : Device → Option (Vector3 Float)
  get_angular_velocity dev =
      let pkt = dev.last_received_packet in
      elim (layout_of pkt) [
        | none ↦ none
        | some layout ↦ some (scaled_rate (vector fl layout pkt omega_x0 omega_y0 omega_z0))
      ]

  -- `fs_get_magnetic_field`.
  unfoldable pub get_magnetic_field : Device → Option (Vector3 Float)
  get_magnetic_field dev =
      let pkt = dev.last_received_packet in
      elim (layout_of pkt) [
        | none ↦ none
        | some layout ↦ some (vector fl layout pkt mag_x mag_y mag_z)
      ]

  -- `fs_get_velocity`: all the types that have one are read through the longest structure.
  unfoldable pub get_velocity : Device → Option (Vector3 Float)
  get_velocity dev =
      let pkt = dev.last_received_packet in
      if has_position (packet_type pkt)
      then some (vector fl composite_packet_2 pkt vx vy vz)
      else none

  -- `fs_get_position`.
  unfoldable pub get_position : Device → Option (Vector3 Double)
  get_position dev =
      let pkt = dev.last_received_packet in
      if has_position (packet_type pkt)
      then some (double_vector fl composite_packet_2 pkt rx ry rz)
      else none

-- ===== src/Packet/Structs64.antt =====
-- include/FS_Trifecta_Defs_Packets.h: the packed packet structures with 64-bit timestamps.
use trifecta_sdk.Common.{[], ◌∷◌}
use trifecta_sdk.Packet.Member.{
  Layout, type, time, ax0, ay0, az0, gx0, gy0, gz0, ax1, ay1, az1, gx1, gy1, gz1, ax2, ay2, az2,
  gx2, gy2, gz2, q0, q1, q2, q3, mag_x, mag_y, mag_z, acc_x, acc_y, acc_z, omega_x0, omega_y0,
  omega_z0, temperature, device_motion_status, diagnostic_flag, reserved, c, barometric_pressure,
  reserved_0_1, reserved_0_2, reserved_0_3, vx, vy, vz, rx, ry, rz,
}

abbrev pub composite_packet_64 : Layout
composite_packet_64 =
    (type, 1)
    ∷ (time, 8)
    ∷ (ax0, 4)
    ∷ (ay0, 4)
    ∷ (az0, 4)
    ∷ (gx0, 4)
    ∷ (gy0, 4)
    ∷ (gz0, 4)
    ∷ (ax1, 4)
    ∷ (ay1, 4)
    ∷ (az1, 4)
    ∷ (gx1, 4)
    ∷ (gy1, 4)
    ∷ (gz1, 4)
    ∷ (ax2, 4)
    ∷ (ay2, 4)
    ∷ (az2, 4)
    ∷ (gx2, 4)
    ∷ (gy2, 4)
    ∷ (gz2, 4)
    ∷ (q0, 4)
    ∷ (q1, 4)
    ∷ (q2, 4)
    ∷ (q3, 4)
    ∷ (mag_x, 4)
    ∷ (mag_y, 4)
    ∷ (mag_z, 4)
    ∷ (acc_x, 4)
    ∷ (acc_y, 4)
    ∷ (acc_z, 4)
    ∷ (omega_x0, 4)
    ∷ (omega_y0, 4)
    ∷ (omega_z0, 4)
    ∷ (temperature, 6)
    ∷ (device_motion_status, 1)
    ∷ (diagnostic_flag, 1)
    ∷ (reserved, 3)
    ∷ (c, 1)
    ∷ (barometric_pressure, 4)
    ∷ []

abbrev pub regular_packet_64 : Layout
regular_packet_64 =
    (type, 1)
    ∷ (time, 8)
    ∷ (omega_x0, 4)
    ∷ (omega_y0, 4)
    ∷ (omega_z0, 4)
    ∷ (q0, 4)
    ∷ (q1, 4)
    ∷ (q2, 4)
    ∷ (q3, 4)
    ∷ (mag_x, 4)
    ∷ (mag_y, 4)
    ∷ (mag_z, 4)
    ∷ (acc_x, 4)
    ∷ (acc_y, 4)
    ∷ (acc_z, 4)
    ∷ (reserved_0_1, 4)
    ∷ (reserved_0_2, 4)
    ∷ (reserved_0_3, 4)
    ∷ (temperature, 6)
    ∷ (device_motion_status, 1)
    ∷ (diagnostic_flag, 1)
    ∷ (reserved, 3)
    ∷ (c, 1)
    ∷ (barometric_pressure, 4)
    ∷ []

abbrev pub composite_packet_64_2 : Layout
composite_packet_64_2 =
    (type, 1)
    ∷ (time, 8)
    ∷ (ax0, 4)
    ∷ (ay0, 4)
    ∷ (az0, 4)
    ∷ (gx0, 4)
    ∷ (gy0, 4)
    ∷ (gz0, 4)
    ∷ (ax1, 4)
    ∷ (ay1, 4)
    ∷ (az1, 4)
    ∷ (gx1, 4)
    ∷ (gy1, 4)
    ∷ (gz1, 4)
    ∷ (ax2, 4)
    ∷ (ay2, 4)
    ∷ (az2, 4)
    ∷ (gx2, 4)
    ∷ (gy2, 4)
    ∷ (gz2, 4)
    ∷ (q0, 4)
    ∷ (q1, 4)
    ∷ (q2, 4)
    ∷ (q3, 4)
    ∷ (mag_x, 4)
    ∷ (mag_y, 4)
    ∷ (mag_z, 4)
    ∷ (omega_x0, 4)
    ∷ (omega_y0, 4)
    ∷ (omega_z0, 4)
    ∷ (acc_x, 4)
    ∷ (acc_y, 4)
    ∷ (acc_z, 4)
    ∷ (vx, 4)
    ∷ (vy, 4)
    ∷ (vz, 4)
    ∷ (rx, 8)
    ∷ (ry, 8)
    ∷ (rz, 8)
    ∷ (temperature, 6)
    ∷ (device_motion_status, 1)
    ∷ (diagnostic_flag, 1)
    ∷ (reserved, 3)
    ∷ (c, 1)
    ∷ (barometric_pressure, 4)
    ∷ []

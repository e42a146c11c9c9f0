-- ===== src/Device/Agreement.antt =====
-- The readings of common/FS_Trifecta_Device.c against those of common/FS_Trifecta_Packet_Utils.c.
use trifecta_sdk.Common.{◌≡◌, ◌≢◌, refl, Option, none, some}
use trifecta_sdk.Floats.{Floats, Vector3}
use trifecta_sdk.Packet.Member.{
  Layout, offset_of, width_of, mag_x, mag_y, mag_z, acc_x, acc_y, acc_z, omega_x0, omega_y0,
  omega_z0,
}
use trifecta_sdk.Packet.Structs.{composite_packet, regular_packet, composite_packet_2}
use trifecta_sdk.Packet.Accessors.{
  vector, scaled_acceleration, acceleration_from_packet, magnetic_field_from_packet,
}
use trifecta_sdk.Packet.{
  Packet, Family, composite, regular, composite2, composite64, regular64, composite64_2, other,
  family_of, packet_type, member,
}
use trifecta_sdk.Device.Getters.{layout_for, layout_of, get_acceleration, get_magnetic_field}
use trifecta_sdk.Device.{Device}

module _ (fl : Floats) where
  open fl use {Float}

  -- A reading of the layout, if there is one.
  abbrev read : Option Layout → (Layout → Vector3 Float) → Option (Vector3 Float)
  read o f = elim o [ none ↦ none | some layout ↦ some (f layout) ]

  -- fs_get_magnetic_field reads of the last packet what fs_magnetic_field_from_packet reads of it.
  pub get_magnetic_field-from_packet :
      (dev : Device)
      → get_magnetic_field fl dev ≡ magnetic_field_from_packet fl dev.last_received_packet
  unfolding get_magnetic_field magnetic_field_from_packet layout_of layout_for
  get_magnetic_field-from_packet dev = by_family (family_of (packet_type p))
    where
      p : Packet
      p = dev.last_received_packet

      mag : Layout → Vector3 Float
      mag layout = vector fl layout p mag_x mag_y mag_z

      by_family :
          (f : Family)
          → read (layout_for f) mag ≡ elim f [
            | composite ↦ some (mag composite_packet)
            | regular ↦ some (mag regular_packet)
            | composite2 ↦ some (mag composite_packet_2)
            | _ ↦ none
          ]
      by_family composite = refl
      by_family regular = refl
      by_family composite2 = refl
      by_family composite64 = refl
      by_family regular64 = refl
      by_family composite64_2 = refl
      by_family other = refl

  -- fs_get_acceleration reads of the last packet what fs_acceleration_from_packet reads of it, unless
  -- the packet is one of composite2.
  pub get_acceleration-from_packet :
      (dev : Device)
      → family_of (packet_type dev.last_received_packet) ≢ composite2
      → get_acceleration fl dev ≡ acceleration_from_packet fl dev.last_received_packet
  unfolding get_acceleration acceleration_from_packet layout_of layout_for
  get_acceleration-from_packet dev short = by_family (family_of (packet_type p)) short
    where
      p : Packet
      p = dev.last_received_packet

      acc : Layout → Vector3 Float
      acc layout = scaled_acceleration fl (vector fl layout p acc_x acc_y acc_z)

      by_family :
          (f : Family)
          → f ≢ composite2
          → read (layout_for f) acc ≡ elim f [
            | composite ↦ some (acc composite_packet)
            | regular ↦ some (acc regular_packet)
            | composite2 ↦ some (acc composite_packet)
            | _ ↦ none
          ]
      by_family composite n = refl
      by_family regular n = refl
      by_family composite2 n = absurd (n refl)
      by_family composite64 n = refl
      by_family regular64 n = refl
      by_family composite64_2 n = refl
      by_family other n = refl

  -- On a composite2 packet fs_acceleration_from_packet gives the angular velocity, scaled as an acceleration.
  pub acceleration_from_packet-composite2 :
      (p : Packet)
      → family_of (packet_type p) ≡ composite2
      → acceleration_from_packet fl p
        ≡ some (scaled_acceleration fl (vector fl composite_packet_2 p omega_x0 omega_y0 omega_z0))
  unfolding acceleration_from_packet member offset_of width_of
  acceleration_from_packet-composite2 p e = rw (e, acceleration_from_packet) refl

-- ===== src/Driver/Named.antt =====
-- A start over a wire and the device's name.
use trifecta_sdk.Common.{◌<◌, ◌≡◌, ◌⊎◌, Bool, true, false}
use trifecta_sdk.Common.Int.{ℤ, pos, negsuc}
use trifecta_sdk.CString.{strnlen}
use trifecta_sdk.Device.{Device}
use trifecta_sdk.Link.Wired.{
  serial_exit, start_serial_thread, name_length, rx_size, rx_buffer, rx_length, read_commands,
}
use trifecta_sdk.Link.{Platform, Handle, Thread, Outcome, back}

-- Starting the driver, a thread or the interrupts does not change the name of the device, which only commands of
-- the device set.
pub record KeepsName (P : Platform) : Type 0 where
  pub driver : (h : Handle) (w : P.World) → name_length (P.init_serial_driver h w).1 ≡ name_length h
  pub thread :
      (t : Thread) (h : Handle) (w : P.World) → name_length (P.thread_start t h w).1 ≡ name_length h
  pub interrupts :
      (h : Handle) (w : P.World) → name_length (P.init_serial_interrupts h w).1 ≡ name_length h

-- A device told its name: the handle had none, an answer was read, and with its commands obeyed the
-- handle has one.
pub record HasTold (P : Platform) : Type 0 where
  pub handle : Handle
  pub world : P.World
  pub code : ℤ
  pub device : Device
  pub unnamed : name_length handle ≡ 0
  pub answer :
      let received = (P.receive_serial handle rx_size (pos 100000) world).0 in
      read_commands handle.device (rx_buffer received) (rx_length received) ≡ back (code, device)
  pub named : 0 < strnlen device.descriptor.device_name 32

module _ (P : Platform) (laws : KeepsName P) where
  abbrev finished : Bool → Handle → P.World → ℤ × Handle × P.World
  finished true h w = start_serial_thread P h w
  finished false h w = (negsuc 5, (serial_exit P h w).1, (serial_exit P h w).2)

  -- The name of a handle is empty, or it was told.
  abbrev IsKnown : Handle → Type 0
  IsKnown h = (name_length h ≡ 0) ⊎ HasTold P

  abbrev EndsKnown : Outcome (Bool × Handle × P.World) → Type 0
  EndsKnown (back (true, h, w)) = IsKnown h
  EndsKnown _ = Unit

  abbrev Named : Outcome (ℤ × Handle × P.World) → Type 0
  Named (back (code, h, w)) = code ≡ pos 0 → (0 < name_length h) × HasTold P
  Named _ = Unit

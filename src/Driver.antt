-- ===== src/Driver.antt =====
-- common/FS_Trifecta.c: the driver's start and end, and the commands that it sends to a device. Handles
-- and texts are not NULL.
pub mod Commands
pub mod Texts
pub mod Lifecycle
pub mod Named
mod Tests
use trifecta_sdk.Common.{
  ℕ, ◌+◌, ◌*◌, Bool, true, false, Option, none, some, List, [], ◌∷◌, ◌++◌, ◌&&◌, ◌||◌, not, ltb,
  ◌==◌, if◌then◌else◌,
}
use trifecta_sdk.Common.Int.{ℤ, pos, negsuc, is_pos, equals}
use trifecta_sdk.Device.{Device, RunStatus, running}
use trifecta_sdk.Link.Message.{numeric, textual, printed}
use trifecta_sdk.Link.Wired.{serial_send_message, serial_start, serial_exit}
use trifecta_sdk.Link.Network.{network_send_message, network_start, network_exit}
use trifecta_sdk.Link.Ports.{PortMap}
use trifecta_sdk.Link.{
  Outcome, overread, stuck, back, Platform, Handle, Config, uninitialized, mode_of, set_mode,
  zero_handle, new_handle,
}

-- The values of the switches over `communication_mode`.
pub data Medium : Type 0 where
  wired networked access_point no_medium : Medium

-- The cases UART, USB_CDC, I2C and SPI; TCP_UDP; TCP_UDP_AP; and the others.
unfoldable pub medium_of : ℤ → Medium
medium_of (negsuc n) = no_medium
medium_of (pos n) =
    if n == 0 || n == 1 || n == 16 || n == 64
    then wired
    else if n == 2
    then networked
    else if n == 4
    then access_point
    else no_medium

-- `fs_export_allocate_device`, where `calloc` succeeds.
abbrev pub allocate_device : Config → Handle
allocate_device config = new_handle config

-- `fs_set_driver_parameters`.
abbrev pub set_driver_parameters : Config → Handle → Handle
set_driver_parameters dconfig h = record h { config = dconfig }

abbrev pub is_running : Handle → Bool
is_running h = elim h.device.params.status [ running ↦ true | _ ↦ false ]

-- The default configuration, where the handle has none.
abbrev pub configured : Config → Handle → Handle
configured default_config h =
    if equals h.config.task_stack_size_bytes 0 then set_driver_parameters default_config h else h

abbrev pub set_baudrate : ℤ → Handle → Handle
set_baudrate baudrate h = record h {
  device = record h.device { params = record h.device.params { baudrate = baudrate } };
}

abbrev pub set_port : ℤ → Handle → Handle
set_port context h = record h { serial_port = context }

-- The tests behind a successful start in `fs_initialize_serial`.
unfoldable pub accept_serial : Handle → ℤ × Handle
accept_serial h =
    if equals (mode_of h) 1
    then (pos 0, set_baudrate (pos 2000000) h)
    else if equals (mode_of h) 0 || equals (mode_of h) 16 || equals (mode_of h) 64
    then (pos 0, h)
    else (negsuc 0, h)

module _ (P : Platform) where
  -- `fs_send_command`.
  unfoldable pub send_command : Handle → List ℕ → P.World → ℤ × P.World
  send_command h payload w = elim (medium_of (mode_of h)) [
    | wired ↦ serial_send_message P h payload w
    | networked ↦ network_send_message P h payload w
    | access_point ↦ network_send_message P h payload w
    | no_medium ↦ (negsuc 0, w)
  ]

  -- `fs_initialize_networked`.
  unfoldable pub initialize_networked :
      PortMap → List ℕ → Handle → P.World → Outcome ((ℤ × Handle × P.World) × PortMap)
  initialize_networked ports device_ip_address h w = elim (is_running h) [
    | true ↦ back ((negsuc 0, h, w), ports)
    | false ↦
        let h1 = set_mode (pos 2) (configured P.default_config h) in
        elim (network_start P ports device_ip_address h1 w) [
          | overread ↦ overread
          | stuck ↦ stuck
          | back ((status, h2, w2), ports') ↦
              if equals status 0
              then back ((if equals (mode_of h2) 2 then pos 0 else negsuc 0, h2, w2), ports')
              else back ((negsuc 0, set_mode uninitialized h2, w2), ports')
        ]
  ]

  -- `fs_initialize_serial` behind the start.
  abbrev pub serial_started : Outcome (ℤ × Handle × P.World) → Outcome (ℤ × Handle × P.World)
  serial_started overread = overread
  serial_started stuck = stuck
  serial_started (back (status, h, w)) =
      if equals status 0
      then (let (code, h') = accept_serial h in back (code, h', w))
      else back (status, set_mode uninitialized h, w)

  -- `fs_initialize_serial`.
  unfoldable pub initialize_serial : Handle → ℤ → ℤ → P.World → Outcome (ℤ × Handle × P.World)
  initialize_serial h context serial_mode w = elim (is_running h) [
    | true ↦ back (negsuc 10, h, w)
    | false ↦
        serial_started (
          serial_start P (set_port context (set_mode serial_mode (configured P.default_config h)))
            w)
  ]

  -- The end of `fs_closedown`, for the value of the link's exit: the handle is cleared.
  unfoldable pub close : ℤ × Handle × P.World → ℤ × Handle × P.World
  close (status, h, w) = if equals status 0 then (pos 0, zero_handle, w) else (negsuc 0, h, w)

  -- `fs_closedown`.
  unfoldable pub closedown : Handle → P.World → ℤ × Handle × P.World
  unfolding close
  closedown h w = elim (medium_of (mode_of h)) [
    | wired ↦ close (serial_exit P h w)
    | networked ↦ close (network_exit P h w)
    | _ ↦ (negsuc 0, h, w)
  ]

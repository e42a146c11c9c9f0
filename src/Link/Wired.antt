-- ===== src/Link/Wired.antt =====
-- common/FS_Trifecta_Serial.c, less the updating thread. Log lines are left out.
use trifecta_sdk.Common.{
  ℕ, zero, suc, Bool, true, false, Option, none, some, List, [], ◌∷◌, ◌++◌, ltb, replicate,
  if◌then◌else◌, ◌-◌, ◌^◌, length, take, ◌&&◌,
}
use trifecta_sdk.Common.Int.{ℤ, pos, negsuc, is_pos, equals}
use trifecta_sdk.CString.{strnlen}
use trifecta_sdk.Device.{Device, RunStatus, idle, max_cmd_length}
use trifecta_sdk.Commands.{segment_commands, handle_received_commands}
use trifecta_sdk.Link.Message.{numeric, printed}
use trifecta_sdk.Link.{
  Platform, Handle, Received, failed, got, Outcome, overread, stuck, back, serial_update, mode_of,
}

-- FS_MAX_DATA_LENGTH, the size of the receive buffer.
abbrev pub rx_size : ℕ
rx_size = 512

abbrev pub set_status : RunStatus → Handle → Handle
set_status status h = record h {
  device = record h.device { params = record h.device.params { status = status } };
}

-- The `memset` of the device's name.
abbrev pub clear_name : Handle → Handle
clear_name h = record h {
  device = record h.device {
    descriptor = record h.device.descriptor { device_name = replicate 32 0 };
  };
}

-- The length of the device's name.
abbrev pub name_length : Handle → ℕ
name_length h = strnlen h.device.descriptor.device_name 32

-- The identification command of `fs_serial_start`, with its NUL: streaming off, then twice the name.
unfoldable pub serial_hello : List ℕ
unfolding numeric
serial_hello =
    printed max_cmd_length
      (b';' ∷ b'A' ∷ b'0' ∷ b';' ∷ b'I' ∷ b'0' ∷ b';' ∷ b'I' ∷ b'0' ∷ b';' ∷ [])
    ++ 0 ∷ []

-- The receive buffer behind a read into it. It was cleared before.
unfoldable pub rx_buffer : Received → List ℕ
rx_buffer (failed n) = replicate rx_size 0
rx_buffer (got bytes) = bytes ++ replicate (rx_size - length bytes) 0

-- The result of the read as the `size_t` that it is stored in: a negative one, of an `ssize_t`, wraps
-- around.
unfoldable pub rx_length : Received → ℕ
rx_length (failed n) = 2 ^ 64 - suc n
rx_length (got bytes) = length bytes

abbrev pub returned : Option (ℤ × Device) → Outcome (ℤ × Device)
returned none = stuck
returned (some r) = back r

-- `fs_handle_received_commands` of a buffer with a length that may be larger: the bytes behind the
-- buffer are read unless fs_segment_commands returns before it gets to them.
unfoldable pub read_commands : Device → List ℕ → ℕ → Outcome (ℤ × Device)
read_commands dev buffer len =
    if ltb (length buffer) len
    then elim (segment_commands dev.command_queue buffer).0 [
      | pos zero ↦ overread
      | _ ↦ returned (handle_received_commands dev buffer)
    ]
    else returned (handle_received_commands dev (take len buffer))

module _ (P : Platform) where
  -- `fs_serial_send_message`.
  unfoldable pub serial_send_message : Handle → List ℕ → P.World → ℤ × P.World
  serial_send_message h message w =
      let (sent, w') = P.transmit_serial h message 1000 w in
      (if is_pos sent then pos 0 else negsuc 0, w')

  -- A round of the loop of `fs_serial_start` behind the commands, for their outcome; `again` is the
  -- next round.
  abbrev pub told :
      (Handle → P.World → Outcome (Bool × Handle × P.World))
      → Handle
      → P.World
      → Outcome (ℤ × Device)
      → Outcome (Bool × Handle × P.World)
  told again h w overread = overread
  told again h w stuck = stuck
  told again h w (back (code, device)) =
      let h' = record h { device = device } in
      elim (equals code 0) [
        | true ↦ back (true, h', w)
        | false ↦ again h' (P.delay (pos 100) (P.receive_serial h' rx_size (pos 100000) w).1)
      ]

  -- The round behind the read, for what was received. The loop's test is on the `size_t`.
  abbrev pub answered :
      (Handle → P.World → Outcome (Bool × Handle × P.World))
      → Handle
      → Received × P.World
      → Outcome (Bool × Handle × P.World)
  answered again h (received, w) = elim (ltb 0 (rx_length received)) [
    | false ↦ again h (P.delay (pos 100) w)
    | true ↦ told again h w (read_commands h.device (rx_buffer received) (rx_length received))
  ]

  -- The round behind the sending of the command.
  abbrev pub asked :
      (Handle → P.World → Outcome (Bool × Handle × P.World))
      → Handle
      → ℤ × P.World
      → Outcome (Bool × Handle × P.World)
  asked again h (sent, w) = elim (is_pos sent) [
    | false ↦ back (false, h, P.delay (pos 100) w)
    | true ↦ answered again h (P.receive_serial h rx_size (pos 100000) (P.delay (pos 100) w))
  ]

  -- The loop with `n` tries left, and whether the command could be sent in each.
  unfoldable pub identify_serial : ℕ → Handle → P.World → Outcome (Bool × Handle × P.World)
  identify_serial zero h w = back (true, h, w)
  identify_serial (suc n) h w =
      asked (identify_serial n) h (P.transmit_serial h serial_hello 100000 w)

  -- `fs_serial_exit`.
  unfoldable pub serial_exit : Handle → P.World → ℤ × Handle × P.World
  serial_exit h w =
      let h' = set_status idle h in
      let message = printed max_cmd_length (numeric b'A' (pos 0)) ++ 0 ∷ [] in
      P.shutdown_serial_driver h' (P.delay (pos 10) (P.transmit_serial h' message 1000 w).1)

  -- What `fs_serial_start` does once the loop is over.
  unfoldable pub start_serial_thread : Handle → P.World → ℤ × Handle × P.World
  start_serial_thread h w =
      let run = λ (h : Handle) (w : P.World).
        (let (status, h', w') = P.thread_start serial_update h w in
          let res : ℤ × Handle × P.World = (if equals status 0 then pos 0 else negsuc 4, h', w') in
          res) in
      if P.interrupts_for (mode_of h) && h.config.use_serial_interrupt_mode
      then (let (status, h', w') = P.init_serial_interrupts h w in
          if equals status 0 then run h' w' else (negsuc 4, h', w'))
      else run h w

  unfoldable pub finish_serial_start : Handle → P.World → ℤ × Handle × P.World
  unfolding start_serial_thread serial_exit
  finish_serial_start h w =
      if ltb 0 (name_length h)
      then start_serial_thread h w
      else (let (code, h', w') = serial_exit h w in (negsuc 5, h', w'))

  -- `fs_serial_start` behind its loop, and behind the start of the serial driver.
  abbrev pub identified : Outcome (Bool × Handle × P.World) → Outcome (ℤ × Handle × P.World)
  identified overread = overread
  identified stuck = stuck
  identified (back (false, h, w)) = back (negsuc 8, h, w)
  identified (back (true, h, w)) = back (finish_serial_start h w)

  abbrev pub driver_started : ℤ × Handle × P.World → Outcome (ℤ × Handle × P.World)
  driver_started (status, h, w) = elim (equals status 0) [
    | false ↦ back (status, h, w)
    | true ↦ identified (identify_serial 10 h (P.delay (pos 10) w))
  ]

  -- `fs_serial_start`.
  unfoldable pub serial_start : Handle → P.World → Outcome (ℤ × Handle × P.World)
  serial_start h w = driver_started (P.init_serial_driver (clear_name h) w)

  -- `fs_serial_device_restart`.
  unfoldable pub serial_device_restart : Handle → P.World → ℤ × P.World
  serial_device_restart h w =
      let message = printed max_cmd_length (numeric b'R' (pos 0)) ++ 0 ∷ [] in
      let (sent, w') = P.transmit_serial h message 1000 w in
      (if is_pos sent then pos 0 else negsuc 0, w')

-- ===== src/Serial.antt =====
-- common/FS_Trifecta_Device.c: fs_device_process_packets_serial, which takes frames and commands out of
-- the device's byte buffer, and fs_device_parse_packet, which picks the format by the connection.
pub mod Rounds
pub mod Steps
pub mod Termination
pub mod Parsing
pub mod Repeats
pub mod Frames
pub mod Faults
mod Tests
use trifecta_sdk.Common.{
  ℕ, zero, suc, ◌+◌, ◌-◌, ◌^◌, ◌%◌, Bool, true, false, ◌||◌, Option, none, some, List, [], ◌∷◌, ltb,
  ◌==◌, size_t, take, drop, length, if◌then◌else◌,
}
use trifecta_sdk.Common.Int.{ℤ, pos, negsuc}
use trifecta_sdk.RingBuffer.Bytes.{max_data_length, cb_push, cb_peek, cb_pop}
use trifecta_sdk.Base64.RoundTrip.{decode_fuel}
use trifecta_sdk.Device.{Device}
use trifecta_sdk.Delimiters.{Indices, scan_delimiters}
use trifecta_sdk.Segment.{segment_packets, base64_to_packet}
use trifecta_sdk.Commands.{handle_received_commands}

-- The static `current_decode_buffer` and the device.
pub record Receiver : Type 0 where
  pub decode_buffer : List ℕ
  pub dev : Device

-- What a round of the loop comes to.
pub data Round : Type 0 where
  empty : Round
  waiting : Round
  handled : Receiver → Round

-- A header and the footer behind it; the footer's index is -1 where there is none.
unfoldable pub frame : Option ℕ → Option ℕ → Option (ℕ × ℕ)
frame (some start) (some end) = if ltb start end then some (start, end) else none
frame none end = none
frame (some start) none = none

-- `fs_cb_pop(&device_handle->data_buffer, NULL, n)`.
abbrev pub drop_bytes : ℕ → Receiver → Receiver
drop_bytes n r = record r { dev = record r.dev { data_buffer = (cb_pop r.dev.data_buffer n).1 } }

-- The three branches; a call that does not return within its fuel gives `none`.
unfoldable pub binary_packet : List ℕ → List ℕ → ℕ → ℕ → Receiver → Option Round
binary_packet stack temp start end r =
    let packet_start = start + 1 in
    let packet_len = size_t (end + 2 ^ 64 - packet_start + 2 ^ 64 - 1) in
    elim (segment_packets r.dev (drop packet_start temp) packet_len stack) [
      | none ↦ none
      | some (status, dev) ↦ some (handled (drop_bytes (end + 1) (record r { dev = dev })))
    ]

unfoldable pub base64_packet : List ℕ → ℕ → ℕ → Receiver → Option Round
base64_packet temp start end r =
    let payload_start = start + 1 in
    let payload_len = end - payload_start in
    elim (base64_to_packet decode_fuel r.dev r.decode_buffer (drop payload_start temp)
      payload_len) [
        | none ↦ none
        | some (status, buffer, dev) ↦
            some (handled (drop_bytes (end + 1) (record { decode_buffer = buffer; dev = dev })))
      ]

unfoldable pub command_segment : List ℕ → ℕ → Receiver → Option Round
command_segment temp semicolon r = elim (handle_received_commands r.dev temp) [
  | none ↦ none
  | some (status, dev) ↦ some (handled (drop_bytes (semicolon + 1) (record r { dev = dev })))
]

-- What is done about the indices found.
unfoldable pub dispatch : List ℕ → List ℕ → Indices → Receiver → Option Round
dispatch stack temp indices r = elim (frame indices.binary_index indices.exclam_index) [
  | some (start, end) ↦ binary_packet stack temp start end r
  | none ↦ elim (frame indices.colon_index indices.exclam_index) [
    | some (start, end) ↦ base64_packet temp start end r
    | none ↦ elim indices.semicolon_index [
      | some i ↦ command_segment temp i r
      | none ↦ some waiting
    ]
  ]
]

-- One round of the loop.
unfoldable pub serial_round : List ℕ → Receiver → Option Round
serial_round stack r =
    let temp = cb_peek r.dev.data_buffer max_data_length in
    if length temp == 0 then some empty else dispatch stack temp (scan_delimiters temp) r

-- The loop, `none` where the fuel of it or of a call runs out.
unfoldable pub serial_loop : ℕ → List ℕ → Receiver → Option (ℤ × Receiver)
serial_loop zero stack r = none
serial_loop (suc fuel) stack r = elim (serial_round stack r) [
  | none ↦ none
  | some empty ↦ some (pos 0, r)
  | some waiting ↦ some (negsuc 0, r)
  | some (handled r') ↦ serial_loop fuel stack r'
]

-- Each round takes a byte out of the 512 at least, and the last one finds none.
abbrev pub serial_fuel : ℕ
serial_fuel = 513

-- `fs_device_process_packets_serial`.
unfoldable pub process_packets_serial : List ℕ → Receiver → List ℕ → Option (ℤ × Receiver)
process_packets_serial stack r rx =
    serial_loop serial_fuel stack
      (record r { dev = record r.dev { data_buffer = cb_push r.dev.data_buffer rx } })

-- `fs_communication_mode_t`, as fs_device_parse_packet takes it.
pub data Source : Type 0 where
  uninitialized usb_cdc uart tcp_udp tcp_udp_ap can i2c espn spi ble : Source

-- The two cases of `fs_device_parse_packet` that read the bytes.
unfoldable pub parse_network : List ℕ → Receiver → List ℕ → Option (ℤ × Receiver)
parse_network stack r rx = elim (segment_packets r.dev rx (length rx) stack) [
  | none ↦ none
  | some (pos n, dev) ↦ some (pos 0, record r { dev = dev })
  | some (negsuc n, dev) ↦ some (negsuc 0, record r { dev = dev })
]

unfoldable pub parse_serial : List ℕ → Receiver → List ℕ → Option (ℤ × Receiver)
parse_serial stack r rx = elim (process_packets_serial stack r rx) [
  | none ↦ none
  | some (pos zero, r') ↦ some (pos 0, r')
  | some (_, r') ↦ some (negsuc 0, r')
]

-- `fs_device_parse_packet`; a length below 1 is that of an empty buffer.
unfoldable pub parse_packet : List ℕ → Receiver → List ℕ → Source → Option (ℤ × Receiver)
parse_packet stack r rx source = if length rx == 0 then some (negsuc 0, r) else elim source [
  | tcp_udp ↦ parse_network stack r rx
  | tcp_udp_ap ↦ parse_network stack r rx
  | i2c ↦ parse_network stack r rx
  | spi ↦ parse_network stack r rx
  | uart ↦ parse_serial stack r rx
  | usb_cdc ↦ parse_serial stack r rx
  | _ ↦ some (negsuc 0, r)
]

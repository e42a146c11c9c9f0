-- ===== src/Segment.antt =====
-- common/FS_Trifecta_Device_Utils.c: segment_packets and base64_to_packet, which put the packets of a
-- buffer in the packet queue.
pub mod Termination
pub mod Packets
pub mod Text
mod Tests
use trifecta_sdk.Common.{
  ℕ, zero, suc, ◌+◌, Bool, ◌||◌, Option, none, some, List, ◌++◌, ltb, ◌==◌, get_or, set, take, drop,
  if◌then◌else◌,
}
use trifecta_sdk.Common.Int.{ℤ, pos, negsuc}
use trifecta_sdk.RingBuffer.Bytes.{max_data_length}
use trifecta_sdk.Packet.{Packet, packet_type, packet_size, obtain_packet_length}
use trifecta_sdk.Base64.{Decoded, out_of_fuel, rejected, decoded, base64_decode}
use trifecta_sdk.Device.{Device, enqueue_into_packet_queue}

-- The packet that `memcpy` makes of `n` bytes; `stack` is what the loop's local union held before. C leaves
-- that open; here it is the same in every round.
abbrev pub copy_packet : List ℕ → ℕ → ℕ → List ℕ → Packet
copy_packet buf at n stack = take n (drop at buf) ++ drop n stack

-- The loop of `segment_packets`, `none` where the fuel runs out.
unfoldable pub segment_from : ℕ → List ℕ → ℕ → List ℕ → ℕ → ℕ → Device → Option (ℤ × Device)
segment_from zero buf rx_len stack at packet_count dev = none
segment_from (suc fuel) buf rx_len stack at packet_count dev =
    let type = get_or buf at 0 in
    let packet_length = obtain_packet_length type in
    let pkt = copy_packet buf at packet_length stack in
    let rest =
      segment_from fuel buf rx_len stack (at + packet_length) (packet_count + 1)
        (enqueue_into_packet_queue dev pkt) in
    if ltb at rx_len
    then (if packet_length == 0
        then some (pos 0, dev)
        else if ltb rx_len (at + packet_length)
        then some (negsuc 0, dev)
        else if packet_type pkt == type
        then rest
        else some (negsuc 0, dev))
    else some (pos packet_count, dev)

-- Every round takes a byte at least, and a buffer has at most FS_MAX_DATA_LENGTH.
abbrev pub segment_fuel : ℕ
segment_fuel = 513

-- `segment_packets`.
unfoldable pub segment_packets : Device → List ℕ → ℕ → List ℕ → Option (ℤ × Device)
segment_packets dev rx_buf rx_len stack =
    if rx_len == 0 || ltb max_data_length rx_len
    then some (negsuc 0, dev)
    else segment_from segment_fuel rx_buf rx_len stack 0 0 dev

-- FS_MAX_PACKET_LENGTH, the size of `current_decode_buffer`.
abbrev pub decode_buffer_size : ℕ
decode_buffer_size = 256

-- `base64_to_packet`, for the segment behind its pointer: the status, `current_decode_buffer` and the
-- device. `none` where the decoder's fuel runs out.
unfoldable pub base64_to_packet : ℕ → Device → List ℕ → List ℕ → ℕ → Option (ℤ × List ℕ × Device)
base64_to_packet fuel dev decode_buffer segment length =
    elim (base64_decode fuel (set segment length 0) decode_buffer decode_buffer_size) [
      | out_of_fuel ↦ none
      | rejected buffer ↦ some (negsuc 0, buffer, dev)
      | decoded buffer decoded_size ↦
          if obtain_packet_length (packet_type buffer) == 0
          then some (negsuc 0, buffer, dev)
          else some (pos 0, buffer, enqueue_into_packet_queue dev (take packet_size buffer))
    ]

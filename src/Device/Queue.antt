-- ===== src/Device/Queue.antt =====
-- common/FS_Trifecta_Device.c: the packet queue and the last packet, as the user reads them.
use trifecta_sdk.Common.{ℕ, ◌+◌, ◌%◌, Option, none, some, ltb, ◌==◌, u16, get_or, if◌then◌else◌}
use trifecta_sdk.Common.Int.{ℤ, pos, negsuc}
use trifecta_sdk.RingBuffer.{pop}
use trifecta_sdk.Packet.{Packet, packet_type, load}
use trifecta_sdk.Device.{Device, max_packet_queue_length}

-- `fs_device_get_packet_count`, and `fs_get_raw_packet_queue_size`.
unfoldable pub get_packet_count : Device → ℕ
get_packet_count dev = dev.packet_buf_queue.count

-- `fs_device_get_packet_pointer_at_index`: the packet pointed to, `none` for NULL.
unfoldable pub get_packet_pointer_at_index : Device → ℤ → Option Packet
get_packet_pointer_at_index dev (negsuc n) = none
get_packet_pointer_at_index dev (pos index) =
    let rb = dev.packet_buf_queue in
    if ltb index rb.count
    then some (
        get_or rb.buffer (u16 ((rb.tail + index) % max_packet_queue_length))
          dev.last_received_packet)
    else none

-- `fs_device_get_packet_at_index`: the type returned, and what the caller's buffer holds then.
unfoldable pub get_packet_at_index : Device → Packet → ℤ → ℤ × Packet
get_packet_at_index dev buffer (negsuc n) = (negsuc 0, buffer)
get_packet_at_index dev buffer (pos index) =
    let rb = dev.packet_buf_queue in
    if ltb index rb.count
    then (let found = get_or rb.buffer (u16 ((rb.tail + index) % max_packet_queue_length)) buffer in
        (pos (packet_type found), found))
    else (negsuc 0, buffer)

-- `fs_get_raw_packet_from_queue`.
unfoldable pub get_raw_packet_from_queue : Device → Packet → ℤ → ℤ × Packet
get_raw_packet_from_queue dev buffer (negsuc n) = (negsuc 0, buffer)
get_raw_packet_from_queue dev buffer (pos index) =
    if ltb index dev.packet_buf_queue.count
    then elim (get_packet_pointer_at_index dev (pos index)) [
      | none ↦ (negsuc 0, buffer)
      | some found ↦ (pos 0, found)
    ]
    else (negsuc 0, buffer)

-- `fs_pop_raw_packet_from_queue`.
unfoldable pub pop_raw_packet_from_queue : Device → Packet → ℤ × Packet × Device
pop_raw_packet_from_queue dev buffer =
    if dev.packet_buf_queue.count == 0
    then (negsuc 0, buffer, dev)
    else let (success, packet, rb) = pop max_packet_queue_length dev.packet_buf_queue buffer in
      (if success then pos 0 else negsuc 0, packet, record dev { packet_buf_queue = rb })

-- `fs_get_raw_packet`.
unfoldable pub get_raw_packet : Device → Packet
get_raw_packet dev = dev.last_received_packet

-- `fs_get_last_timestamp`: `composite.time`, whatever the packet's type.
unfoldable pub get_last_timestamp : Device → ℕ
get_last_timestamp dev = load dev.last_received_packet 1 4

-- ===== src/Segment/Termination.antt =====
-- Whether segment_packets returns, and what of the device it leaves alone.
use trifecta_sdk.Common.{
  ℕ, zero, suc, ◌+◌, ◌-◌, ◌<◌, ◌≡◌, refl, inl, inr, ◌||◌, Option, some, List, arith, ltb, ◌==◌,
  get_or, Bool-cases, ltb→lt,
}
use trifecta_sdk.Common.Int.{ℤ}
use trifecta_sdk.RingBuffer.Bytes.{max_data_length}
use trifecta_sdk.Packet.{Packet, packet_type, obtain_packet_length}
use trifecta_sdk.Device.{Device, enqueue_into_packet_queue}
use trifecta_sdk.Segment.{copy_packet, segment_from, segment_fuel, segment_packets}

-- The call returned, and the byte buffer and the command queue are as they were.
abbrev pub Returns : Device → Option (ℤ × Device) → Type 0
Returns dev r =
    (v : ℤ × Device) × (r ≡ some v)
    × (v.1.data_buffer ≡ dev.data_buffer)
    × (v.1.command_queue ≡ dev.command_queue)

returned : (status : ℤ) (dev : Device) → Returns dev (some (status, dev))
returned status dev = ((status, dev), refl, refl, refl)

segment_from-Returns :
    (fuel : ℕ) (buf : List ℕ) (rx_len : ℕ) (stack : List ℕ) (at packet_count : ℕ) (dev : Device)
    → rx_len - at < fuel
    → Returns dev (segment_from fuel buf rx_len stack at packet_count dev)
unfolding segment_from enqueue_into_packet_queue
segment_from-Returns zero buf rx_len stack at packet_count dev lt = absurd (omega arith)
segment_from-Returns (suc fuel) buf rx_len stack at packet_count dev lt =
    elim (Bool-cases (ltb at rx_len)) [
      | inr done ↦ rw done (returned _ dev)
      | inl more ↦ elim (Bool-cases (n == 0)) [
        | inl unknown ↦ rw (more, unknown) (returned _ dev)
        | inr known ↦ elim (Bool-cases (ltb rx_len (at + n))) [
          | inl partial ↦ rw (more, known, partial) (returned _ dev)
          | inr whole ↦ elim (Bool-cases (packet_type pkt == get_or buf at 0)) [
            | inl same ↦
                rw (more, known, whole, same)
                  (segment_from-Returns fuel buf rx_len stack (at + n) (packet_count + 1)
                    (enqueue_into_packet_queue dev pkt) (ground (arith, ltb→lt _ _ more)))
            | inr differs ↦ rw (more, known, whole, differs) (returned _ dev)
          ]
        ]
      ]
    ]
  where
    n : ℕ
    n = obtain_packet_length (get_or buf at 0)

    pkt : Packet
    pkt = copy_packet buf at n stack

-- segment_packets returns on every buffer and every length, and changes neither the device's byte
-- buffer nor its command queue.
pub segment_packets-Returns :
    (dev : Device) (rx_buf : List ℕ) (rx_len : ℕ) (stack : List ℕ)
    → Returns dev (segment_packets dev rx_buf rx_len stack)
unfolding segment_packets
segment_packets-Returns dev rx_buf rx_len stack =
    elim (Bool-cases (rx_len == 0 || ltb max_data_length rx_len)) [
      | inl bad ↦ rw bad (returned _ dev)
      | inr good ↦
          rw good (segment_from-Returns segment_fuel rx_buf rx_len stack 0 0 dev (ground arith))
    ]

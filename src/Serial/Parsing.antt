-- ===== src/Serial/Parsing.antt =====
-- fs_device_parse_packet, by the connection that the bytes come from.
use trifecta_sdk.Common.{
  ℕ, zero, suc, ◌≤◌, ◌≡◌, refl, sym, ap, ◌∙◌, inl, inr, false, some, List, [], ◌∷◌, ◌++◌,
  append-nil, arith, ◌==◌, length, length-append, Bool-cases,
}
use mathlib.Core.Path.{subst}
use trifecta_sdk.Common.Int.{ℤ, pos, negsuc}
use trifecta_sdk.RingBuffer.Refine.{Holds}
use trifecta_sdk.RingBuffer.Bytes.{max_data_length}
use trifecta_sdk.Packet.{Packet}
use trifecta_sdk.Device.{Device}
use trifecta_sdk.Device.Laws.{enqueue_all}
use trifecta_sdk.Commands.Invariant.{IsQueue}
use trifecta_sdk.Segment.{segment_packets}
use trifecta_sdk.Segment.Packets.{ArePackets, joined, stored, segment_packets-joined}
use trifecta_sdk.Segment.Termination.{segment_packets-Returns}
use trifecta_sdk.Serial.Steps.{NoPad, Ready}
use trifecta_sdk.Serial.Termination.{Returns, process_packets_serial-Returns}
use trifecta_sdk.Serial.{
  Receiver, Source, uninitialized, usb_cdc, uart, tcp_udp, tcp_udp_ap, can, i2c, espn, spi, ble,
  process_packets_serial, parse_network, parse_serial, parse_packet,
}

-- The connections that carry binary packets.
pub data IsBinary : Source → Type 0 where
  station : IsBinary tcp_udp
  access_point : IsBinary tcp_udp_ap
  i2c_bus : IsBinary i2c
  spi_bus : IsBinary spi

parse_network-joined :
    (stack : List ℕ) (r : Receiver) (p : Packet) (ps : List Packet)
    → ArePackets (p ∷ ps)
    → length (joined (p ∷ ps)) ≤ max_data_length
    → parse_network stack r (joined (p ∷ ps))
      ≡ some (pos 0, record r { dev = enqueue_all r.dev (stored stack (p ∷ ps)) })
unfolding parse_network
parse_network-joined stack r p ps h fits =
    let whole =
      ap (λ buf. segment_packets r.dev buf (length (joined (p ∷ ps))) stack)
        (sym (append-nil (joined (p ∷ ps))))
      ∙ segment_packets-joined r.dev p ps [] stack h fits in
    rw (whole, parse_network) refl

pub parse_packet-joined :
    (stack : List ℕ) (r : Receiver) (p : Packet) (ps : List Packet) {source : Source}
    → IsBinary source
    → ArePackets (p ∷ ps)
    → length (joined (p ∷ ps)) ≤ max_data_length
    → parse_packet stack r (joined (p ∷ ps)) source
      ≡ some (pos 0, record r { dev = enqueue_all r.dev (stored stack (p ∷ ps)) })
unfolding parse_packet
parse_packet-joined stack r p ps binary h fits = by_source binary
  where
    nonempty : (length (joined (p ∷ ps)) == 0) ≡ false
    nonempty = ground (arith, h.0.0, length-append p (joined ps))

    by_source :
        {source : Source}
        → IsBinary source
        → parse_packet stack r (joined (p ∷ ps)) source
          ≡ some (pos 0, record r { dev = enqueue_all r.dev (stored stack (p ∷ ps)) })
    by_source station = rw nonempty (parse_network-joined stack r p ps h fits)
    by_source access_point = rw nonempty (parse_network-joined stack r p ps h fits)
    by_source i2c_bus = rw nonempty (parse_network-joined stack r p ps h fits)
    by_source spi_bus = rw nonempty (parse_network-joined stack r p ps h fits)

parse_network-Returns :
    (stack : List ℕ) (r : Receiver) (q rx : List ℕ) → Ready r q → Returns (parse_network stack r rx)
unfolding parse_network
parse_network-Returns stack r q rx (h, hc) =
    let ((status, dev), e, bytes, commands) = segment_packets-Returns r.dev rx (length rx) stack in
    by_status status dev e
      (subst (λ b. Holds max_data_length b q) (sym bytes) h, subst IsQueue (sym commands) hc)
  where
    by_status :
        (status : ℤ) (dev : Device)
        → segment_packets r.dev rx (length rx) stack ≡ some (status, dev)
        → Ready (record r { dev = dev }) q
        → Returns (parse_network stack r rx)
    by_status (pos n) dev e ready =
        rw (e, parse_network) ((pos 0, record r { dev = dev }), refl, (q, ready))
    by_status (negsuc n) dev e ready =
        rw (e, parse_network) ((negsuc 0, record r { dev = dev }), refl, (q, ready))

parse_serial-Returns :
    (stack : List ℕ) (r : Receiver) (q rx : List ℕ)
    → Ready r q
    → NoPad (q ++ rx)
    → Returns (parse_serial stack r rx)
unfolding parse_serial
parse_serial-Returns stack r q rx h plain =
    let ((status, r'), e, ready) = process_packets_serial-Returns stack r q rx h plain in
    by_status status r' e ready
  where
    by_status :
        (status : ℤ) (r' : Receiver)
        → process_packets_serial stack r rx ≡ some (status, r')
        → ((q' : List ℕ) × Ready r' q')
        → Returns (parse_serial stack r rx)
    by_status (pos zero) r' e ready = rw (e, parse_serial) ((pos 0, r'), refl, ready)
    by_status (pos (suc n)) r' e ready = rw (e, parse_serial) ((negsuc 0, r'), refl, ready)
    by_status (negsuc n) r' e ready = rw (e, parse_serial) ((negsuc 0, r'), refl, ready)

-- fs_device_parse_packet returns for every connection, with a valid byte buffer and command queue, if
-- they were valid before and neither the buffered bytes nor the new ones have a '=' among them.
pub parse_packet-Returns :
    (stack : List ℕ) (r : Receiver) (q rx : List ℕ) (source : Source)
    → Ready r q
    → NoPad (q ++ rx)
    → Returns (parse_packet stack r rx source)
unfolding parse_packet
parse_packet-Returns stack r q rx source h plain = elim (Bool-cases (length rx == 0)) [
  | inl nothing ↦ rw nothing failed
  | inr some_byte ↦ by_source some_byte source
]
  where
    failed : Returns (some (negsuc 0, r))
    failed = ((negsuc 0, r), refl, (q, h))

    by_source : (length rx == 0) ≡ false → (s : Source) → Returns (parse_packet stack r rx s)
    by_source e uninitialized = rw e failed
    by_source e usb_cdc = rw e (parse_serial-Returns stack r q rx h plain)
    by_source e uart = rw e (parse_serial-Returns stack r q rx h plain)
    by_source e tcp_udp = rw e (parse_network-Returns stack r q rx h)
    by_source e tcp_udp_ap = rw e (parse_network-Returns stack r q rx h)
    by_source e can = rw e failed
    by_source e i2c = rw e (parse_network-Returns stack r q rx h)
    by_source e espn = rw e failed
    by_source e spi = rw e (parse_network-Returns stack r q rx h)
    by_source e ble = rw e failed

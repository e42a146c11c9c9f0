-- ===== src/Link/Tests.antt =====
-- The ports of addresses, and the threads of a device.
use trifecta_sdk.Common.{ℕ, ◌+◌, ◌≡◌, refl, arith, List, [], ◌∷◌, inr}
use trifecta_sdk.Link.Message.{decimal, digits_of}
use trifecta_sdk.Common.Int.{negsuc}
use trifecta_sdk.Link.Ports.{no_ports, trifecta_port, get_udp_port_for_device}
use trifecta_sdk.Link.Ports.Assigned.{IsAddress, Assigns, place_of, with_address}
use trifecta_sdk.Link.Ports.Assigning.{get_udp_port_for_device-Assigns}
use trifecta_sdk.Common.{replicate}
use trifecta_sdk.Common.Int.{pos}
use trifecta_sdk.Packet.{Packet, obtain_packet_length, family_of}
use trifecta_sdk.Packet.Member.{size_of}
use trifecta_sdk.Segment.Packets.{IsPacket, joined}
use trifecta_sdk.Device.{running, error, idle}
use trifecta_sdk.Device.Laws.{enqueue_all}
use trifecta_sdk.Link.Wired.{set_status}
use trifecta_sdk.Link.Sample.{settings, platform, ready_device, no_commands-Holds}
use trifecta_sdk.Link.Updating.{
  testing, receiving, looping, counting, waiting, ended, Reader, status_of, enter, move, mark,
  count_ping, hear, is_received, leaves, goes_on, reads, stops_reading, counts_empty, waits, stops,
  Reaches, here, next,
}
use trifecta_sdk.Link.Updating.Runs.{added, Reaches-ended, Reaches-ping, stopped-Reaches}
use trifecta_sdk.Link.Listening.{timing_of, tcp_update_thread, udp_update_thread}
use trifecta_sdk.Link.Listening.Commanding.{KeepsQueue, Ran, tcp_update_thread-Ran}
use trifecta_sdk.Link.Listening.Datagrams.{IsDatagram, all_stored, Fed, udp_update_thread-Fed}
use trifecta_sdk.Link.{Platform, Handle, got, failed, set_mode}

-- "10.0.0.7"
abbrev address : List ℕ
address = b'1' ∷ b'0' ∷ b'.' ∷ b'0' ∷ b'.' ∷ b'0' ∷ b'.' ∷ b'7' ∷ []

address-IsAddress : IsAddress address
address-IsAddress = (ground arith, omega arith, omega arith)

no_ports-Assigns : Assigns no_ports []
no_ports-Assigns = record { room = omega arith; counted = refl; stored = refl }

decimal_negative : decimal (negsuc 119) ≡ b'-' ∷ b'1' ∷ b'2' ∷ b'0' ∷ []
unfolding decimal digits_of
decimal_negative = refl

get_udp_port_for_device-Assigns_example :
    ((get_udp_port_for_device no_ports address).0 ≡ trifecta_port + place_of address [])
    × Assigns (get_udp_port_for_device no_ports address).1 (with_address address [])
get_udp_port_for_device-Assigns_example =
    get_udp_port_for_device-Assigns address address-IsAddress no_ports [] tt no_ports-Assigns
      (inr (omega arith))

abbrev handle : Handle
handle = record {
  device = ready_device;
  config = settings;
  ip_addr = replicate 39 0;
  tcp_port = pos 8888;
  udp_port = pos 8888;
  serial_port = pos 3;
  ping = pos 5;
}

abbrev entered : Reader
entered = enter handle (replicate 256 0)

abbrev quiet : Reader
quiet = hear (got []) (mark idle (move receiving entered))

abbrev counted : Reader
counted = move testing (count_ping (pos 3) quiet)

-- The thread starts to read, is stopped, reads nothing and comes back to its test.
tested : Reaches (pos 3) [] entered counted
unfolding is_received
tested =
    next
      (next
        (next
          (next (next (next here (goes_on entered refl refl)) (stops (move receiving entered)))
            (reads (mark idle (move receiving entered)) (got []) refl))
          (stops_reading (move looping quiet) refl refl))
        (counts_empty (move counting quiet) refl refl))
      (waits (move waiting (count_ping (pos 3) quiet)) refl)

Reaches-ping_example : (k : ℕ) × (counted.handle.ping ≡ added k (pos 3) (pos 5))
Reaches-ping_example = Reaches-ping (pos 3) [] handle (replicate 256 0) tested

Reaches-ended_example : status_of (move ended counted) ≡ idle
Reaches-ended_example =
    Reaches-ended (pos 3) [] handle (replicate 256 0) (next tested (leaves counted refl refl)) refl

stopped-Reaches_example :
    Reaches (pos 3) [] (mark idle (move receiving entered)) (move ended (count_ping (pos 3) quiet))
    × Reaches
        (pos 3)
        []
        (mark idle (move receiving entered))
        (move receiving (mark running (hear (failed 6) (move receiving entered))))
stopped-Reaches_example = stopped-Reaches (pos 3) [] (move receiving entered) 6 refl

abbrev answering : Platform
answering = platform (pos 1) (got (b'I' ∷ b'a' ∷ b';' ∷ []))

answering-KeepsQueue : KeepsQueue answering
answering-KeepsQueue = record { tcp = λ h w. refl; udp = λ h w. refl }

tcp_update_thread-Ran_example :
    Ran answering answering-KeepsQueue
      (timing_of handle)
      (tcp_update_thread answering (timing_of handle) 7 (set_status error handle) [])
tcp_update_thread-Ran_example =
    tcp_update_thread-Ran answering answering-KeepsQueue (timing_of handle) 7
      (set_status error handle) [] ([], no_commands-Holds)

-- A packet of type S_PACKET_TYPE_AHRS.
abbrev ahrs : Packet
ahrs = 5 ∷ replicate 84 7

ahrs-IsPacket : IsPacket ahrs
unfolding obtain_packet_length family_of size_of
ahrs-IsPacket = (omega arith, refl)

abbrev datagram : List Packet
datagram = ahrs ∷ ahrs ∷ []

datagram-IsDatagram : IsDatagram datagram
datagram-IsDatagram = (omega arith, (ahrs-IsPacket, (ahrs-IsPacket, tt)), omega arith)

abbrev streaming : Platform
streaming = platform (pos 1) (got (joined datagram))

abbrev listener : Reader
listener = enter (set_mode (pos 2) handle) (replicate 256 0)

udp_update_thread-Fed_example :
    Fed streaming
      (timing_of handle)
      (replicate 185 0)
      (enqueue_all listener.handle.device (all_stored (replicate 185 0) (datagram ∷ datagram ∷ [])))
      (udp_update_thread streaming (timing_of handle) 2 (replicate 185 0) listener [])
udp_update_thread-Fed_example =
    udp_update_thread-Fed streaming (timing_of handle) (replicate 185 0) (datagram ∷ datagram ∷ [])
      listener [] (datagram-IsDatagram, (datagram-IsDatagram, tt)) (refl, refl)
      ([], (λ h. refl), ([], (λ h. refl), tt))

-- ===== src/Link/Listening/Datagrams.antt =====
-- Packets that come over UDP.
use trifecta_sdk.Common.{
  ℕ, suc, ◌≤◌, ◌<◌, ◌≡◌, refl, sym, ap, ◌∙◌, Bool, false, Option, some, List, [], ◌∷◌, ◌++◌, length,
  arith, length-append,
}
use trifecta_sdk.Common.Int.{pos}
use trifecta_sdk.RingBuffer.Bytes.{max_data_length}
use trifecta_sdk.Packet.{Packet}
use trifecta_sdk.Device.{Device, running, enqueue_into_packet_queue}
use trifecta_sdk.Device.Laws.{enqueue_all}
use trifecta_sdk.Segment.Packets.{ArePackets, joined, stored}
use trifecta_sdk.Serial.{parse_packet}
use trifecta_sdk.Serial.Parsing.{station, parse_packet-joined}
use trifecta_sdk.Link.Wired.{rx_size}
use trifecta_sdk.Link.Updating.{Reader, status_of, source_of, receiver_of}
use trifecta_sdk.Link.Listening.{
  Timing, udp_received, udp_waited, udp_read, udp_update_thread, set_ping,
}
use trifecta_sdk.Link.{Platform, Handle, got, mode_of}

-- At least one packet, as long as its type says, and all of them fit the receive buffer.
abbrev pub IsDatagram : List Packet → Type 0
IsDatagram ps = (0 < length ps) × ArePackets ps × (length (joined ps) ≤ max_data_length)

abbrev pub AllDatagrams : List (List Packet) → Type 0
AllDatagrams [] = Unit
AllDatagrams (d ∷ ds) = IsDatagram d × AllDatagrams ds

-- The packets as the queue has them.
abbrev pub all_stored : List ℕ → List (List Packet) → List Packet
all_stored stack [] = []
all_stored stack (d ∷ ds) = stored stack d ++ all_stored stack ds

-- A device on the network whose thread goes on.
abbrev pub IsListening : Reader → Type 0
IsListening r = (mode_of r.handle ≡ pos 2) × (status_of r ≡ running)

enqueue_all-append :
    (ps qs : List Packet) (dev : Device)
    → enqueue_all dev (ps ++ qs) ≡ enqueue_all (enqueue_all dev ps) qs
enqueue_all-append [] qs dev = refl
enqueue_all-append (p ∷ ps) qs dev = enqueue_all-append ps qs (enqueue_into_packet_queue dev p)

params-enqueue_all : (ps : List Packet) (dev : Device) → (enqueue_all dev ps).params ≡ dev.params
unfolding enqueue_into_packet_queue
params-enqueue_all [] dev = refl
params-enqueue_all (p ∷ ps) dev = params-enqueue_all ps (enqueue_into_packet_queue dev p)

-- The reader behind a datagram.
abbrev fed : List ℕ → List Packet → Reader → Reader
fed stack d r = record r {
  handle =
      set_ping (pos 0) (record r.handle { device = enqueue_all r.handle.device (stored stack d) });
}

fed-IsListening :
    (stack : List ℕ) (d : List Packet) (r : Reader) → IsListening r → IsListening (fed stack d r)
fed-IsListening stack d r (mode, status) =
    let same = params-enqueue_all (stored stack d) r.handle.device in
    (ap (λ p. p.communication_mode) same ∙ mode, ap (λ p. p.status) same ∙ status)

parse_packet-fed :
    (stack : List ℕ) (d : List Packet) (r : Reader)
    → IsDatagram d
    → mode_of r.handle ≡ pos 2
    → parse_packet stack (receiver_of r) (joined d) (source_of (mode_of r.handle))
      ≡ some (pos 0, receiver_of (fed stack d r))
unfolding source_of
parse_packet-fed stack [] r h mode = absurd (omega (arith, h.0))
parse_packet-fed stack (p ∷ ps) r h mode =
    ap (λ m. parse_packet stack (receiver_of r) (joined (p ∷ ps)) (source_of m)) mode
    ∙ parse_packet-joined stack (receiver_of r) p ps station h.1 h.2

udp_received-fed :
    (stack : List ℕ) (d : List Packet) (bytes : List ℕ) (r : Reader)
    → joined d ≡ bytes
    → 0 < length bytes
    → IsDatagram d
    → mode_of r.handle ≡ pos 2
    → udp_received stack r (got bytes) ≡ some (fed stack d r)
unfolding udp_received
udp_received-fed stack d [] r e some_byte h mode = absurd (omega arith)
udp_received-fed stack d (c ∷ cs) r e some_byte h mode =
    let parsed =
      ap (λ bytes. parse_packet stack (receiver_of r) bytes (source_of (mode_of r.handle))) (sym e)
      ∙ parse_packet-fed stack d r h mode in
    rw (parsed, udp_received) refl

joined-nonempty : (d : List Packet) → IsDatagram d → 0 < length (joined d)
joined-nonempty [] h = absurd (omega (arith, h.0))
joined-nonempty (p ∷ ps) h = ground (arith, h.1.0.0, length-append p (joined ps))

module _ (P : Platform) (t : Timing) (stack : List ℕ) where
  -- From this state of the world the UDP socket gives these datagrams, one for each read, whatever the
  -- handle is.
  abbrev pub Delivers : List (List Packet) → P.World → Type 0
  Delivers [] w = Unit
  Delivers (d ∷ ds) w =
      (w' : P.World) × ((h : Handle)
        → P.receive_networked_udp h rx_size t.timeout w ≡ (got (joined d), w'))
      × Delivers ds (P.delay t.wait w')

  -- The outcome of some passes that did not end and left this device.
  abbrev pub Fed : Device → Option (Bool × Reader × P.World) → Type 0
  Fed dev o = (r : Reader) × (w : P.World) × (o ≡ some (false, r, w)) × (r.handle.device ≡ dev)

  udp_read-fed :
      (d : List Packet) (r : Reader) (w w' : P.World)
      → IsDatagram d
      → mode_of r.handle ≡ pos 2
      → P.receive_networked_udp r.handle rx_size t.timeout w ≡ (got (joined d), w')
      → udp_read P t stack r w ≡ some (fed stack d r, P.delay t.wait w')
  unfolding udp_read
  udp_read-fed d r w w' h mode e =
      let received = udp_received-fed stack d (joined d) r refl (joined-nonempty d h) h mode in
      ap (udp_waited P t stack r) e ∙ rw (received, udp_waited) refl

  pass :
      (n : ℕ) (r r' : Reader) (w w' : P.World)
      → status_of r ≡ running
      → udp_read P t stack r w ≡ some (r', w')
      → udp_update_thread P t (suc n) stack r w ≡ udp_update_thread P t n stack r' w'
  unfolding udp_update_thread
  pass n r r' w w' on e = rw (on, e, udp_update_thread) refl

  -- fs_udp_update_thread of a running device in the mode TCP_UDP, on a socket that gives one datagram of
  -- whole packets after another: as many passes as there are datagrams put all of the packets into the
  -- device's packet queue, in order.
  pub udp_update_thread-Fed :
      (ds : List (List Packet)) (r : Reader) (w : P.World)
      → AllDatagrams ds
      → IsListening r
      → Delivers ds w
      → Fed
          (enqueue_all r.handle.device (all_stored stack ds))
          (udp_update_thread P t (length ds) stack r w)
  unfolding udp_update_thread
  udp_update_thread-Fed [] r w h on given = (r, w, refl, refl)
  udp_update_thread-Fed (d ∷ ds) r w h on (w', read, later) =
      let one = udp_read-fed d r w w' h.0 on.0 (read r.handle) in
      let (r', w'', e, same) =
        udp_update_thread-Fed ds (fed stack d r) (P.delay t.wait w') h.1
          (fed-IsListening stack d r on) later in
      (
        r',
        w'',
        pass (length ds) r (fed stack d r) w (P.delay t.wait w') on.1 one ∙ e,
        same ∙ sym (enqueue_all-append (stored stack d) (all_stored stack ds) r.handle.device),
      )

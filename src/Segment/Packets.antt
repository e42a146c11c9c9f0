-- ===== src/Segment/Packets.antt =====
-- What segment_packets makes of packets that stand one behind the other.
use trifecta_sdk.Common.{
  ℕ, zero, suc, ◌+◌, ◌-◌, ◌≤◌, ◌<◌, ◌≡◌, refl, sym, ap, ◌∙◌, false, some, List, [], ◌∷◌, ◌++◌,
  append_assoc, arith, ltb, ◌==◌, ==_iff, get_or, take, drop, length, lt→ltb, ltb_of_le,
  length-append, get_or-append_here, drop-append_length, take-append_length,
}
use trifecta_sdk.Common.Int.{pos, negsuc}
use trifecta_sdk.RingBuffer.Bytes.{max_data_length}
use trifecta_sdk.Packet.{Packet, packet_type, obtain_packet_length}
use trifecta_sdk.Device.{Device, enqueue_into_packet_queue}
use trifecta_sdk.Device.Laws.{enqueue_all}
use trifecta_sdk.Segment.{copy_packet, segment_from, segment_fuel, segment_packets}

-- A packet of a known type, as long as the type says.
abbrev pub IsPacket : Packet → Type 0
IsPacket p = (0 < length p) × (length p ≡ obtain_packet_length (packet_type p))

abbrev pub ArePackets : List Packet → Type 0
ArePackets [] = Unit
ArePackets (p ∷ ps) = IsPacket p × ArePackets ps

-- The bytes of the packets, one behind the other.
abbrev pub joined : List Packet → List ℕ
joined [] = []
joined (p ∷ ps) = p ++ joined ps

-- The packets in the union that they are copied to.
abbrev pub stored : List ℕ → List Packet → List Packet
stored stack [] = []
stored stack (p ∷ ps) = (p ++ drop (length p) stack) ∷ stored stack ps

-- The copy of the packet that stands at the position.
copy_packet-here :
    (pre p rest stack : List ℕ)
    → copy_packet (pre ++ (p ++ rest)) (length pre) (length p) stack ≡ p ++ drop (length p) stack
copy_packet-here pre p rest stack =
    ap (λ t. take (length p) t ++ drop (length p) stack) (drop-append_length pre (p ++ rest))
    ∙ ap (λ t. t ++ drop (length p) stack) (take-append_length p rest)

head-append : (p rest : List ℕ) → 0 < length p → packet_type (p ++ rest) ≡ packet_type p
head-append [] rest h = absurd (omega arith)
head-append (x ∷ p) rest h = refl

type-here :
    (pre p rest : List ℕ)
    → 0 < length p
    → get_or (pre ++ (p ++ rest)) (length pre) 0 ≡ packet_type p
type-here pre [] rest h = absurd (omega arith)
type-here pre (x ∷ p) rest h = get_or-append_here pre (p ++ rest) x 0

-- One round takes one packet.
segment_from-packet :
    (fuel : ℕ) (pre p rest : List ℕ) (rx_len : ℕ) (stack : List ℕ) (packet_count : ℕ) (dev : Device)
    → IsPacket p
    → length pre + length p ≤ rx_len
    → segment_from (suc fuel) (pre ++ (p ++ rest)) rx_len stack (length pre) packet_count dev
      ≡ segment_from fuel
          (pre ++ (p ++ rest))
          rx_len
          stack
          (length pre + length p)
          (packet_count + 1)
          (enqueue_into_packet_queue dev (p ++ drop (length p) stack))
unfolding segment_from
segment_from-packet fuel pre p rest rx_len stack packet_count dev (some_byte, e) fits =
    rw
      (
        type-here pre p rest some_byte,
        ← e,
        copy_packet-here pre p rest stack,
        lt→ltb (length pre) rx_len (omega arith),
        nonzero,
        ltb_of_le rx_len (length pre + length p) fits,
        head-append p (drop (length p) stack) some_byte,
        (==_iff (packet_type p) (packet_type p)).1 refl,
      )
      refl
  where
    nonzero : (length p == 0) ≡ false
    nonzero = ground arith

segment_from-packets :
    (ps : List Packet) (fuel : ℕ) (pre rest : List ℕ) (rx_len : ℕ) (stack : List ℕ)
    (packet_count : ℕ) (dev : Device)
    → ArePackets ps
    → length pre + length (joined ps) ≡ rx_len
    → rx_len - length pre < fuel
    → segment_from fuel (pre ++ (joined ps ++ rest)) rx_len stack (length pre) packet_count dev
      ≡ some (pos (packet_count + length ps), enqueue_all dev (stored stack ps))
unfolding segment_from
segment_from-packets ps zero pre rest rx_len stack packet_count dev h e lt = absurd (omega arith)
segment_from-packets [] (suc fuel) pre rest rx_len stack packet_count dev h e lt =
    let done : ltb (length pre) rx_len ≡ false = ltb_of_le _ _ (omega arith) in
    let same : packet_count ≡ packet_count + 0 = omega arith in
    rw done (ap (λ n. some (pos n, dev)) same)
segment_from-packets (p ∷ ps) (suc fuel) pre rest rx_len stack packet_count dev (hp, h) e lt =
    let here : pre ++ ((p ++ joined ps) ++ rest) ≡ pre ++ (p ++ (joined ps ++ rest)) =
      ap (λ t. pre ++ t) (append_assoc p (joined ps) rest) in
    let next : pre ++ (p ++ (joined ps ++ rest)) ≡ (pre ++ p) ++ (joined ps ++ rest) =
      sym (append_assoc pre p (joined ps ++ rest)) in
    let measured = length-append pre p in
    let dev' = enqueue_into_packet_queue dev (p ++ drop (length p) stack) in
    let total = length-append p (joined ps) in
    let tail =
      segment_from-packets ps fuel (pre ++ p) rest rx_len stack (packet_count + 1) dev' h
        (omega (arith, measured, total)) (omega (arith, measured, hp.0)) in
    ap (λ t. segment_from (suc fuel) t rx_len stack (length pre) packet_count dev) here
    ∙ segment_from-packet fuel pre p (joined ps ++ rest) rx_len stack packet_count dev hp
        (omega (arith, total))
    ∙ ap (λ t. segment_from fuel t rx_len stack (length pre + length p) (packet_count + 1) dev')
        next
    ∙ ap
        (λ n.
          segment_from fuel ((pre ++ p) ++ (joined ps ++ rest)) rx_len stack n (packet_count + 1)
            dev')
        (sym measured)
    ∙ tail
    ∙ ap (λ n. some (pos n, enqueue_all dev' (stored stack ps))) (omega arith)

-- segment_packets enqueues every packet of a buffer, in order, and returns their number: for packets
-- of known types, each as long as its type says, together at most FS_MAX_DATA_LENGTH bytes. Behind a
-- packet's bytes the enqueued union keeps what the stack held.
pub segment_packets-joined :
    (dev : Device) (p : Packet) (ps : List Packet) (rest stack : List ℕ)
    → ArePackets (p ∷ ps)
    → length (joined (p ∷ ps)) ≤ max_data_length
    → segment_packets dev (joined (p ∷ ps) ++ rest) (length (joined (p ∷ ps))) stack
      ≡ some (pos (suc (length ps)), enqueue_all dev (stored stack (p ∷ ps)))
unfolding segment_packets
segment_packets-joined dev p ps rest stack h fits =
    let size = length-append p (joined ps) in
    let empty : (length (joined (p ∷ ps)) == 0) ≡ false = ground (arith, h.0.0, size) in
    let large : ltb max_data_length (length (joined (p ∷ ps))) ≡ false = ltb_of_le _ _ fits in
    rw (empty, large)
      (segment_from-packets (p ∷ ps) segment_fuel [] rest (length (joined (p ∷ ps))) stack 0 dev h
          (omega arith) (omega arith)
        ∙ ap (λ n. some (pos n, enqueue_all dev (stored stack (p ∷ ps)))) (omega arith))

segment_from-partial :
    (fuel : ℕ) (dev : Device) (p : Packet) (rest stack : List ℕ) (rx_len : ℕ)
    → IsPacket p
    → 0 < rx_len
    → rx_len < length p
    → segment_from (suc fuel) (p ++ rest) rx_len stack 0 0 dev ≡ some (negsuc 0, dev)
unfolding segment_from
segment_from-partial fuel dev p rest stack rx_len (some_byte, whole) nonempty short =
    let known : (length p == 0) ≡ false = ground arith in
    rw
      (
        type-here [] p rest some_byte,
        ← whole,
        lt→ltb 0 rx_len nonempty,
        known,
        lt→ltb rx_len (0 + length p) (omega arith),
      )
      refl

-- segment_packets on a packet that is cut short returns -1 and enqueues nothing.
pub segment_packets-partial :
    (dev : Device) (p : Packet) (rest stack : List ℕ) (rx_len : ℕ)
    → IsPacket p
    → 0 < rx_len
    → rx_len < length p
    → rx_len ≤ max_data_length
    → segment_packets dev (p ++ rest) rx_len stack ≡ some (negsuc 0, dev)
unfolding segment_packets
segment_packets-partial dev p rest stack rx_len ok nonempty short fits =
    let empty : (rx_len == 0) ≡ false = ground arith in
    rw (empty, ltb_of_le max_data_length rx_len fits)
      (segment_from-partial 512 dev p rest stack rx_len ok nonempty short)

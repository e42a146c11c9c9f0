-- ===== src/Segment/Text.antt =====
-- What base64_to_packet makes of a packet that was encoded.
use trifecta_sdk.Common.{
  ℕ, zero, suc, ◌<◌, ◌≡◌, refl, sym, ap, ◌∙◌, false, Option, some, List, [], ◌∷◌, ◌++◌, arith, ◌==◌,
  get_or, set, take, length, set-append_here, take-take,
}
use mathlib.Core.Path.{subst}
use trifecta_sdk.Common.Int.{ℤ, pos}
use trifecta_sdk.Packet.{Packet, packet_type, packet_size, obtain_packet_length}
use trifecta_sdk.Packet.Laws.{obtain_packet_length-le}
use trifecta_sdk.Base64.Loop.{AreBytes, zero_padded}
use trifecta_sdk.Base64.RoundTrip.{
  decode_fuel, DecodesTo, decode-encode, length-zero_padded, take-zero_padded,
}
use trifecta_sdk.Base64.{base64_encode, base64_decode}
use trifecta_sdk.Device.{Device, enqueue_into_packet_queue}
use trifecta_sdk.Segment.Packets.{IsPacket}
use trifecta_sdk.Segment.{base64_to_packet, decode_buffer_size}

-- The packet was enqueued; the decode buffer keeps its size and starts with the packet.
pub record Enqueues (dev : Device) (p : Packet) (r : Option (ℤ × List ℕ × Device)) : Type 0 where
  pub buffer : List ℕ
  pub result : r ≡ some (pos 0, buffer, enqueue_into_packet_queue dev (take packet_size buffer))
  pub same_size : length buffer ≡ decode_buffer_size
  pub starts : take (length p) buffer ≡ p

first-take : (n : ℕ) (xs : List ℕ) → 0 < n → get_or (take n xs) 0 0 ≡ get_or xs 0 0
first-take zero xs h = absurd (omega arith)
first-take (suc n) [] h = refl
first-take (suc n) (x ∷ xs) h = refl

base64_to_packet-decoded :
    (dev : Device) (p : Packet) (decode_buffer segment : List ℕ) (n : ℕ)
    → IsPacket p
    → length decode_buffer ≡ decode_buffer_size
    → DecodesTo
        (zero_padded p)
        decode_buffer
        (base64_decode decode_fuel (set segment n 0) decode_buffer decode_buffer_size)
    → Enqueues dev p (base64_to_packet decode_fuel dev decode_buffer segment n)
unfolding base64_to_packet
base64_to_packet-decoded dev p decode_buffer segment n (some_byte, whole) size d = record {
  buffer = d.out;
  result = rw (d.result, known, base64_to_packet) refl;
  same_size = d.same_size ∙ size;
  starts = starts;
}
  where
    starts : take (length p) d.out ≡ p
    starts =
        sym (
          take-take (length p) (length (zero_padded p)) d.out (omega (arith, length-zero_padded p)))
        ∙ ap (take (length p)) d.contents
        ∙ take-zero_padded p

    same_type : packet_type d.out ≡ packet_type p
    same_type = sym (first-take (length p) d.out some_byte) ∙ ap packet_type starts

    known : (obtain_packet_length (packet_type d.out) == 0) ≡ false
    known = ap (λ t. obtain_packet_length t == 0) same_type ∙ ground (arith, whole, some_byte)

-- base64_to_packet, given the text that fs_base64_encode made of a packet, returns 0 and enqueues the
-- packet: what is enqueued starts with the packet's bytes. The packet is as long as its type says, and
-- a byte follows the text, for the NUL that is written there. The decode buffer has its 256 bytes.
pub base64_to_packet-encode :
    (dev : Device) (p : Packet) (text decode_buffer rest : List ℕ) (x buffer_size : ℕ)
    → IsPacket p
    → AreBytes p
    → base64_encode p buffer_size ≡ some text
    → length decode_buffer ≡ decode_buffer_size
    → Enqueues dev p
        (base64_to_packet decode_fuel dev decode_buffer (text ++ x ∷ rest) (length text))
base64_to_packet-encode dev p text decode_buffer rest x buffer_size (some_byte, whole) bytes e
      size =
    base64_to_packet-decoded dev p decode_buffer (text ++ x ∷ rest) (length text) (some_byte, whole)
      size
      (subst
        (λ t.
          DecodesTo (zero_padded p) decode_buffer
            (base64_decode decode_fuel t decode_buffer decode_buffer_size))
        (sym (set-append_here text rest x 0))
        (decode-encode p text rest decode_buffer buffer_size decode_buffer_size bytes e
          (omega (arith, whole, obtain_packet_length-le (packet_type p)))
          (omega (arith, whole, obtain_packet_length-le (packet_type p))) (omega (arith, size))))

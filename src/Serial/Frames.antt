-- ===== src/Serial/Frames.antt =====
-- fs_device_process_packets_serial on a frame that holds a packet's text.
use trifecta_sdk.Common.{
  ℕ, ◌+◌, ◌-◌, ◌<◌, ◌≡◌, refl, sym, ap, ◌∙◌, true, ◌&&◌, not, Option, none, some, List, [], ◌∷◌,
  ◌++◌, arith, lt→ltb, ◌==◌, take, length, length-append, holds_below, holds_below-test,
}
use mathlib.Core.Path.{subst}
use trifecta_sdk.Common.Int.{ℤ, pos}
use trifecta_sdk.RingBuffer.Refine.{Holds}
use trifecta_sdk.RingBuffer.Bytes.{max_data_length, cb_push}
use trifecta_sdk.Packet.{Packet, packet_type, packet_size}
use trifecta_sdk.Packet.Laws.{obtain_packet_length-le}
use trifecta_sdk.Base64.Tables.{char_of}
use trifecta_sdk.Base64.Encoding.{
  IsText, base64_encode_lem, encode_groups-IsText, length-encode_groups,
}
use trifecta_sdk.Base64.Loop.{AreBytes}
use trifecta_sdk.Base64.RoundTrip.{decode_fuel}
use trifecta_sdk.Base64.{base64_chars, base64_encode, encode_groups, encoded_length}
use trifecta_sdk.Device.{enqueue_into_packet_queue}
use trifecta_sdk.Delimiters.Frame.{IsPlainByte, IsBody, scan_delimiters-text}
use trifecta_sdk.Segment.{base64_to_packet, decode_buffer_size}
use trifecta_sdk.Segment.Packets.{IsPacket}
use trifecta_sdk.Segment.Text.{Enqueues, base64_to_packet-encode}
use trifecta_sdk.Serial.{
  Receiver, handled, frame, drop_bytes, base64_packet, dispatch, serial_round,
  process_packets_serial,
}
use trifecta_sdk.Serial.Rounds.{
  serial_round-empty, serial_round-dispatch, serial_loop-once, cb_push-frame, drop_bytes-all,
}

-- No character of the Base64 table is a delimiter.
plain_chars :
    holds_below
      (λ v.
        (not (char_of v == b':') && not (char_of v == b'@'))
        && (not (char_of v == b'!') && not (char_of v == b';')))
      64
    ≡ true
unfolding holds_below base64_chars
plain_chars = refl

char-IsPlainByte : (v : ℕ) → v < 64 → IsPlainByte (char_of v)
char-IsPlainByte v h =
    let p : ((not (char_of v == b':') && not (char_of v == b'@'))
          && (not (char_of v == b'!') && not (char_of v == b';')))
        ≡ true =
      holds_below-test _ _ v plain_chars h in
    (ground arith, ground arith, ground arith, ground arith)

IsText-IsBody : (cs : List ℕ) → IsText cs → IsBody cs
IsText-IsBody [] h = tt
IsText-IsBody (c ∷ cs) ((v, lt, e), h) =
    (subst IsPlainByte (sym e) (char-IsPlainByte v lt), IsText-IsBody cs h)

-- The frame's packet arrived: the byte buffer is empty again, and what was enqueued starts with the
-- packet's bytes.
pub record Arrived (r : Receiver) (p : Packet) (result : Option (ℤ × Receiver)) : Type 0 where
  pub after : Receiver
  pub returns : result ≡ some (pos 0, after)
  pub emptied : Holds max_data_length after.dev.data_buffer []
  pub starts : take (length p) after.decode_buffer ≡ p
  pub enqueued :
      after.dev ≡ (record (enqueue_into_packet_queue r.dev (take packet_size after.decode_buffer)) {
        data_buffer = after.dev.data_buffer;
      })

dispatch-text :
    (stack temp : List ℕ) (r : Receiver) (n : ℕ)
    → dispatch stack temp
        (record {
          colon_index = some 0;
          binary_index = none;
          exclam_index = some (1 + n);
          semicolon_index = none;
        })
        r
      ≡ base64_packet temp 0 (1 + n) r
unfolding dispatch frame
dispatch-text stack temp r n = rw (lt→ltb 0 (1 + n) (omega arith), dispatch, frame) refl

base64_packet-Enqueues :
    (r : Receiver) (p : Packet) (text : List ℕ)
    → (e : Enqueues r.dev p
        (base64_to_packet decode_fuel r.dev r.decode_buffer (text ++ b'!' ∷ []) (length text)))
    → base64_packet (b':' ∷ (text ++ b'!' ∷ [])) 0 (1 + length text) r
      ≡ some (
          handled (
            drop_bytes (1 + length text + 1) (record {
              decode_buffer = e.buffer;
              dev = enqueue_into_packet_queue r.dev (take packet_size e.buffer);
            })))
unfolding base64_packet
base64_packet-Enqueues r p text e =
    let size : 1 + length text - 1 ≡ length text = omega arith in
    rw (size, e.result, base64_packet) refl

-- The length of what the encoder makes of a packet.
text-length :
    (p text : List ℕ) (buffer_size : ℕ)
    → base64_encode p buffer_size ≡ some text
    → (text ≡ encode_groups p) × (length text ≡ encoded_length (length p))
text-length p text buffer_size e =
    let same : text ≡ encode_groups p = ground (arith, base64_encode_lem p buffer_size) in
    (same, ap length same ∙ length-encode_groups p)

-- A packet sent as ':', its Base64 text and '!' arrives: fs_device_process_packets_serial returns 0,
-- enqueues a packet that starts with the packet's bytes, and leaves the byte buffer empty. The byte
-- buffer was empty before, and the packet is as long as its type says, of bytes, and the decode buffer has its 256 bytes.
pub process_packets_serial-text :
    (stack : List ℕ) (r : Receiver) (p : Packet) (text : List ℕ) (buffer_size : ℕ)
    → IsPacket p
    → AreBytes p
    → base64_encode p buffer_size ≡ some text
    → Holds max_data_length r.dev.data_buffer []
    → length r.decode_buffer ≡ decode_buffer_size
    → Arrived r p (process_packets_serial stack r (b':' ∷ (text ++ b'!' ∷ [])))
unfolding process_packets_serial enqueue_into_packet_queue
process_packets_serial-text stack r p text buffer_size ok bytes e h size = record {
  after = after;
  returns = serial_loop-once stack pushed after 511 first (serial_round-empty stack after emptied);
  emptied = emptied;
  starts = enqueues.starts;
  enqueued = refl;
}
  where
    q : List ℕ
    q = b':' ∷ (text ++ b'!' ∷ [])

    pushed : Receiver
    pushed = record r { dev = record r.dev { data_buffer = cb_push r.dev.data_buffer q } }

    plain : IsBody text
    plain =
        subst IsBody (sym (text-length p text buffer_size e).0)
          (IsText-IsBody _ (encode_groups-IsText p))

    measured : length q ≡ encoded_length (length p) + 2
    measured = omega (arith, length-append text (b'!' ∷ []), (text-length p text buffer_size e).1)

    held : Holds max_data_length pushed.dev.data_buffer q
    held =
        cb_push-frame r.dev.data_buffer q h
          (omega (arith, measured, ok.1, obtain_packet_length-le (packet_type p)))

    enqueues : Enqueues pushed.dev p (
        base64_to_packet decode_fuel pushed.dev pushed.decode_buffer
          (text ++ b'!' ∷ [])
          (length text))
    enqueues =
        base64_to_packet-encode pushed.dev p text pushed.decode_buffer [] b'!' buffer_size ok bytes
          e size

    decoded : Receiver
    decoded = record {
      decode_buffer = enqueues.buffer;
      dev = enqueue_into_packet_queue pushed.dev (take packet_size enqueues.buffer);
    }

    after : Receiver
    after = drop_bytes (1 + length text + 1) decoded

    emptied : Holds max_data_length after.dev.data_buffer []
    emptied =
        drop_bytes-all decoded q (1 + length text + 1) held
          (omega (arith, length-append text (b'!' ∷ [])))

    first : serial_round stack pushed ≡ some (handled after)
    first =
        serial_round-dispatch stack pushed q held (omega arith)
        ∙ ap (λ i. dispatch stack q i pushed) (scan_delimiters-text text plain)
        ∙ dispatch-text stack q pushed (length text)
        ∙ base64_packet-Enqueues pushed p text enqueues

-- ===== src/Serial/Faults.antt =====
-- fs_device_process_packets_serial on binary frames and on a stray footer.
use trifecta_sdk.Common.{
  ℕ, ◌+◌, ◌-◌, ◌^◌, ◌≤◌, ◌<◌, ◌≡◌, refl, ap, ◌∙◌, inl, inr, Option, none, some, List, [], ◌∷◌, ◌++◌,
  arith, ltb_of_le, lt→ltb, size_t, length, length-append,
}
use mathlib.Core.Path.{subst}
use trifecta_sdk.Common.Int.{ℤ, pos, negsuc}
use trifecta_sdk.RingBuffer.Refine.{Holds}
use trifecta_sdk.RingBuffer.KeepLast.{keep_last_all}
use trifecta_sdk.RingBuffer.Bytes.{max_data_length, cb_push}
use trifecta_sdk.RingBuffer.Bytes.Laws.{cb_push-Holds}
use trifecta_sdk.Packet.{Packet, packet_type}
use trifecta_sdk.Packet.Laws.{obtain_packet_length-le, obtain_packet_length-known}
use trifecta_sdk.Delimiters.{Indices, scan_delimiters}
use trifecta_sdk.Delimiters.Frame.{IsBody, scan_delimiters-binary}
use trifecta_sdk.Delimiters.Stray.{Beyond, IsStray, NoTerminator, scan_delimiters-IsStray}
use trifecta_sdk.Segment.Packets.{IsPacket, segment_packets-partial}
use trifecta_sdk.Serial.Rounds.{
  serial_round-empty, serial_round-dispatch, serial_loop-once, cb_push-frame, drop_bytes-all,
}
use trifecta_sdk.Serial.{
  Receiver, waiting, handled, frame, drop_bytes, binary_packet, dispatch, serial_round, serial_loop,
  process_packets_serial,
}

-- The call returned 0 with an empty byte buffer, and nothing else of the receiver changed.
pub record Dropped (r : Receiver) (result : Option (ℤ × Receiver)) : Type 0 where
  pub after : Receiver
  pub returns : result ≡ some (pos 0, after)
  pub emptied : Holds max_data_length after.dev.data_buffer []
  pub unchanged : after ≡ (record r { dev = record r.dev { data_buffer = after.dev.data_buffer } })

dispatch-binary :
    (stack temp : List ℕ) (r : Receiver) (n : ℕ)
    → dispatch stack temp
        (record {
          colon_index = none;
          binary_index = some 0;
          exclam_index = some (1 + n);
          semicolon_index = none;
        })
        r
      ≡ binary_packet stack temp 0 (1 + n) r
unfolding dispatch frame
dispatch-binary stack temp r n = rw (lt→ltb 0 (1 + n) (omega arith), dispatch, frame) refl

binary_packet-partial :
    (stack : List ℕ) (r : Receiver) (p : Packet)
    → IsPacket p
    → binary_packet stack (b'@' ∷ (p ++ b'!' ∷ [])) 0 (1 + length p) r
      ≡ some (handled (drop_bytes (1 + length p + 1) r))
unfolding binary_packet
binary_packet-partial stack r p (some_byte, whole) =
    rw
      (
        framed,
        segment_packets-partial r.dev p (b'!' ∷ []) stack (length p - 1) (some_byte, whole)
            long_enough (omega (arith, some_byte))
            (omega (arith, whole, obtain_packet_length-le (packet_type p))),
        binary_packet,
      )
      refl
  where
    long_enough : 0 < length p - 1
    long_enough = elim (obtain_packet_length-known (packet_type p)) [
      | inl unknown ↦ absurd (omega (arith, whole, some_byte))
      | inr lower ↦ omega (arith, whole)
    ]

    framed : size_t (1 + length p + 2 ^ 64 - (0 + 1) + 2 ^ 64 - 1) ≡ length p - 1
    framed = omega (arith, some_byte, whole, obtain_packet_length-le (packet_type p))

-- A packet sent as '@', its bytes and '!' is lost: the frame is taken one byte too short, so
-- fs_device_process_packets_serial returns 0, empties the byte buffer and enqueues nothing. The byte
-- buffer was empty before, and the packet is as long as its type says and has no delimiter in it.
pub process_packets_serial-binary :
    (stack : List ℕ) (r : Receiver) (p : Packet)
    → IsPacket p
    → IsBody p
    → Holds max_data_length r.dev.data_buffer []
    → Dropped r (process_packets_serial stack r (b'@' ∷ (p ++ b'!' ∷ [])))
unfolding process_packets_serial
process_packets_serial-binary stack r p ok plain h = record {
  after = after;
  returns = serial_loop-once stack pushed after 511 first (serial_round-empty stack after emptied);
  emptied = emptied;
  unchanged = refl;
}
  where
    q : List ℕ
    q = b'@' ∷ (p ++ b'!' ∷ [])

    pushed : Receiver
    pushed = record r { dev = record r.dev { data_buffer = cb_push r.dev.data_buffer q } }

    after : Receiver
    after = drop_bytes (1 + length p + 1) pushed

    measured : length q ≡ length p + 2
    measured = omega (arith, length-append p (b'!' ∷ []))

    held : Holds max_data_length pushed.dev.data_buffer q
    held =
        cb_push-frame r.dev.data_buffer q h
          (omega (arith, measured, ok.1, obtain_packet_length-le (packet_type p)))

    emptied : Holds max_data_length after.dev.data_buffer []
    emptied = drop_bytes-all pushed q (1 + length p + 1) held (omega (arith, measured))

    first : serial_round stack pushed ≡ some (handled after)
    first =
        serial_round-dispatch stack pushed q held (omega arith)
        ∙ ap (λ i. dispatch stack q i pushed) (scan_delimiters-binary p plain)
        ∙ dispatch-binary stack q pushed (length p)
        ∙ binary_packet-partial stack pushed p ok

frame-Beyond : (e : ℕ) (o : Option ℕ) → Beyond e o → frame o (some e) ≡ none
unfolding frame
frame-Beyond e none h = refl
frame-Beyond e (some i) h = rw (ltb_of_le i e (omega arith)) refl

dispatch-stray :
    (stack temp : List ℕ) (indices : Indices) (e : ℕ) (r : Receiver)
    → IsStray e indices
    → dispatch stack temp indices r ≡ some waiting
unfolding dispatch
dispatch-stray stack temp indices e r h =
    rw
      (
        before indices.binary_index h.binary,
        before indices.colon_index h.colon,
        h.semicolon,
        dispatch,
      )
      refl
  where
    before : (o : Option ℕ) → Beyond e o → frame o indices.exclam_index ≡ none
    before o b = ap (frame o) h.exclam ∙ frame-Beyond e o b

-- A stray '!' stops the stream: where the buffered bytes and the new ones, together at most
-- FS_MAX_DATA_LENGTH, have no delimiter before their first '!' and no ';' behind it,
-- fs_device_process_packets_serial returns -1 and takes nothing out, whatever frames follow.
pub process_packets_serial-stray :
    (stack : List ℕ) (r : Receiver) (q rx body rest : List ℕ)
    → Holds max_data_length r.dev.data_buffer q
    → length (q ++ rx) ≤ max_data_length
    → q ++ rx ≡ body ++ b'!' ∷ rest
    → IsBody body
    → NoTerminator rest
    → process_packets_serial stack r rx
      ≡ some
          (negsuc 0, record r { dev = record r.dev { data_buffer = cb_push r.dev.data_buffer rx } })
unfolding process_packets_serial serial_loop
process_packets_serial-stray stack r q rx body rest h fits split plain no_end =
    rw (first, serial_loop) refl
  where
    pushed : Receiver
    pushed = record r { dev = record r.dev { data_buffer = cb_push r.dev.data_buffer rx } }

    held : Holds max_data_length pushed.dev.data_buffer (body ++ b'!' ∷ rest)
    held =
        subst (Holds max_data_length pushed.dev.data_buffer)
          (keep_last_all max_data_length (q ++ rx) fits ∙ split)
          (cb_push-Holds rx r.dev.data_buffer q h)

    first : serial_round stack pushed ≡ some waiting
    first =
        serial_round-dispatch stack pushed (body ++ b'!' ∷ rest) held
          (omega (arith, length-append body (b'!' ∷ rest)))
        ∙ dispatch-stray stack (body ++ b'!' ∷ rest) (scan_delimiters (body ++ b'!' ∷ rest))
            (length body) pushed (scan_delimiters-IsStray body rest plain no_end)

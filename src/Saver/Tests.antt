-- ===== src/Saver/Tests.antt =====
-- Two packets that are saved.
use trifecta_sdk.Common.{
  ℕ, ◌≤◌, ◌≡◌, refl, arith, some, List, [], ◌∷◌, ◌++◌, replicate, length, take, drop,
}
use trifecta_sdk.RingBuffer.{init}
use trifecta_sdk.RingBuffer.Refine.{Holds}
use trifecta_sdk.RingBuffer.KeepLast.{keep_last}
use trifecta_sdk.RingBuffer.Operations.{init-Holds}
use trifecta_sdk.Packet.{Packet, family_of, load, member}
use trifecta_sdk.Packet.Member.{Field, offset_of, width_of}
use trifecta_sdk.Packet.Structs.{composite_packet}
use trifecta_sdk.Device.{Device, Saver, running, max_packet_queue_length}
use trifecta_sdk.Device.Laws.{enqueue_all}
use trifecta_sdk.Commands.Atoi.{skip_space, is_space}
use trifecta_sdk.Link.Message.{decimal, digits_of}
use trifecta_sdk.Link.{zero_device}
use trifecta_sdk.Link.Sample.{ready_device}
use trifecta_sdk.Replay.Header.{
  FieldId, parse_header, split_comma, c_string, find_field, same_text, normalize_token, tolower,
}
use trifecta_sdk.Replay.Row.{Numbers, replay_parse_packet}
use trifecta_sdk.Replay.Table.{joined}
use trifecta_sdk.Replay.Values
use trifecta_sdk.Saver.Lines.{Plain}
use trifecta_sdk.Saver.Fields.{float_text}
use trifecta_sdk.Saver.Replayed.{first, replay_parse_packet-format_packet}
use trifecta_sdk.Saver.Draining.{lines_of, Saved}
use trifecta_sdk.Saver.Received.{enqueue_all-Saved}
use trifecta_sdk.Saver.{Texts, header, cells_of, text_of, columns_of, format_packet, save_packets}

-- A printer that prints "0.5" for everything.
abbrev texts : Texts
texts = record {
  float = λ n. b'0' ∷ b'.' ∷ b'5' ∷ [];
  double = λ n. b'0' ∷ b'.' ∷ b'5' ∷ [];
  integer = λ n. b'0' ∷ b'.' ∷ b'5' ∷ [];
}

texts-Plain : Plain texts
texts-Plain = record {
  float = λ n. ground arith;
  double = λ n. ground arith;
  integer = λ n. ground arith;
}

abbrev ahrs : Packet
ahrs = 5 ∷ replicate 84 7

-- A packet of type C_PACKET_TYPE_AHRS.
abbrev composite : Packet
composite = 1 ∷ replicate 144 7

abbrev numbers : Numbers
numbers = record { strtof = length; strtod = length }

composite_line : length (joined (cells_of texts composite)) ≤ 511
unfolding cells_of columns_of text_of family_of decimal digits_of load member offset_of width_of
composite_line = omega arith

-- The fields before and behind that of MagY.
abbrev mag_before : List FieldId
mag_before = take 25 (parse_header header)

abbrev mag_after : List FieldId
mag_after = drop 26 (parse_header header)

mag_split : parse_header header ≡ mag_before ++ FieldId.magy ∷ mag_after
unfolding parse_header split_comma c_string find_field same_text normalize_token skip_space is_space
    tolower
mag_split = refl

replay_parse_packet-format_packet_example :
    (line : List ℕ) × ((format_packet texts composite).1 ≡ line ++ 10 ∷ [])
    × Values.Holds numbers composite_packet Field.mag_y
        (float_text texts composite_packet composite Field.mag_y)
        (replay_parse_packet numbers (parse_header header) line (replicate 185 0))
unfolding width_of
replay_parse_packet-format_packet_example =
    replay_parse_packet-format_packet texts texts-Plain numbers composite (replicate 185 0)
      composite_packet mag_before mag_after FieldId.magy Field.mag_y (first 1 (omega arith))
      mag_split refl (omega arith) composite_line

abbrev saver : Saver
saver = record { packets_to_save = init ready_device.packet_buf_queue; running_status = running }

abbrev saving : Device
saving = record ready_device {
  packet_buf_queue = init ready_device.packet_buf_queue;
  save_context = some saver;
}

no_packets-Holds : Holds max_packet_queue_length saver.packets_to_save []
unfolding zero_device
no_packets-Holds = init-Holds 16 _ (omega arith) (omega arith) refl

enqueue_all-Saved_example :
    (saver' : Saver) × ((enqueue_all saving (ahrs ∷ ahrs ∷ [])).save_context ≡ some saver')
    × Saved
        (b'x' ∷ [] ++ lines_of texts (keep_last max_packet_queue_length ([] ++ (ahrs ∷ ahrs ∷ []))))
        (save_packets 17 texts saver'.packets_to_save [] (b'x' ∷ []))
enqueue_all-Saved_example =
    enqueue_all-Saved texts saver saving [] [] (ahrs ∷ ahrs ∷ []) [] (b'x' ∷ []) refl
      (no_packets-Holds, (refl, no_packets-Holds)) (omega arith)

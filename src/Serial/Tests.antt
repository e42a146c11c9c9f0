-- ===== src/Serial/Tests.antt =====
-- Frames of one short packet, and a stray footer.
use trifecta_sdk.Common.{
  ℕ, zero, suc, ◌≡◌, refl, arith, none, some, List, [], ◌∷◌, ◌++◌, replicate, length-replicate,
}
use trifecta_sdk.Common.Int.{pos, negsuc}
use trifecta_sdk.RingBuffer.Refine.{Holds}
use trifecta_sdk.RingBuffer.Operations.{init-Holds}
use trifecta_sdk.RingBuffer.Bytes.{max_data_length, cb_push}
use trifecta_sdk.RingBuffer.{Ring, init}
use trifecta_sdk.Packet.{Packet, obtain_packet_length, family_of}
use trifecta_sdk.Packet.Member.{size_of}
use trifecta_sdk.Base64.Encoding.{base64_encode_lem}
use trifecta_sdk.Base64.Loop.{AreBytes}
use trifecta_sdk.Base64.{base64_encode, encode_groups}
use trifecta_sdk.Device.{running, max_cmd_queue_length}
use trifecta_sdk.Delimiters.Frame.{IsBody}
use trifecta_sdk.Segment.Packets.{IsPacket}
use trifecta_sdk.Commands.Invariant.{IsQueue}
use trifecta_sdk.Serial.Termination.{Returns, process_packets_serial-Returns}
use trifecta_sdk.Serial.Repeats.{Obeys, repeated, process_packets_serial-commands}
use trifecta_sdk.Commands.Payload.{format, AllPlain}
use trifecta_sdk.Commands.{is_break}
use trifecta_sdk.Serial.Frames.{Arrived, process_packets_serial-text}
use trifecta_sdk.Serial.Faults.{
  Dropped, process_packets_serial-binary, process_packets_serial-stray,
}
use trifecta_sdk.Serial.{Receiver, process_packets_serial}

abbrev bytes : Ring ℕ
bytes = record { buffer = replicate 512 0; head = 0; tail = 0; count = 0 }

abbrev commands : Ring (List ℕ)
commands = record { buffer = replicate 16 []; head = 0; tail = 0; count = 0 }

abbrev receiver : Receiver
receiver = record {
  decode_buffer = replicate 256 0;
  dev = record {
    descriptor = record {
      device_name = [];
      device_fw = [];
      device_desc = [];
      device_sn = [];
      device_model = [];
    };
    params = record {
      communication_mode = pos 0;
      status = running;
      all_enabled_interfaces = pos 0;
      ssid = [];
      ssid_ap = [];
      pw_ap = [];
      baudrate = pos 9600;
    };
    last_received_packet = replicate 185 0;
    data_buffer = init bytes;
    packet_buf_queue = record { buffer = replicate 16 []; head = 0; tail = 0; count = 0 };
    command_queue = init commands;
    save_context = none;
  };
}

no_bytes-Holds : Holds max_data_length receiver.dev.data_buffer []
no_bytes-Holds = init-Holds 512 bytes (omega arith) (omega arith) (length-replicate {A = ℕ} 512 0)

-- A packet of type S_PACKET_TYPE_AHRS.
abbrev ahrs : Packet
ahrs = 5 ∷ replicate 84 7

ahrs-IsPacket : IsPacket ahrs
unfolding obtain_packet_length family_of size_of
ahrs-IsPacket = (omega arith, refl)

replicate-AreBytes : (n : ℕ) → AreBytes (replicate n 7)
replicate-AreBytes zero = tt
replicate-AreBytes (suc n) = (omega arith, replicate-AreBytes n)

replicate-IsBody : (n : ℕ) → IsBody (replicate n 7)
replicate-IsBody zero = tt
replicate-IsBody (suc n) = ((refl, refl, refl, refl), replicate-IsBody n)

ahrs_text : base64_encode ahrs 117 ≡ some (encode_groups ahrs)
ahrs_text = base64_encode_lem ahrs 117

process_packets_serial-text_example :
    Arrived receiver ahrs
      (process_packets_serial [] receiver (b':' ∷ (encode_groups ahrs ++ b'!' ∷ [])))
process_packets_serial-text_example =
    process_packets_serial-text [] receiver ahrs (encode_groups ahrs) 117 ahrs-IsPacket
      (omega arith, replicate-AreBytes 84) ahrs_text no_bytes-Holds (length-replicate {A = ℕ} 256 0)

process_packets_serial-binary_example :
    Dropped receiver (process_packets_serial [] receiver (b'@' ∷ (ahrs ++ b'!' ∷ [])))
process_packets_serial-binary_example =
    process_packets_serial-binary [] receiver ahrs ahrs-IsPacket
      ((refl, refl, refl, refl), replicate-IsBody 84) no_bytes-Holds

-- "!" and a whole frame behind it.
abbrev stray : List ℕ
stray = b'!' ∷ b':' ∷ b'A' ∷ b'!' ∷ []

process_packets_serial-stray_example :
    process_packets_serial [] receiver stray
    ≡ some (
      negsuc 0,
      record receiver {
        dev = record receiver.dev { data_buffer = cb_push receiver.dev.data_buffer stray };
      },
    )
process_packets_serial-stray_example =
    process_packets_serial-stray [] receiver [] stray [] (b':' ∷ b'A' ∷ b'!' ∷ []) no_bytes-Holds
      (omega arith) refl tt (refl, (refl, (refl, tt)))

no_commands-Holds : Holds max_cmd_queue_length receiver.dev.command_queue []
no_commands-Holds = init-Holds 16 commands (omega arith) (omega arith) refl

no_commands-IsQueue : IsQueue receiver.dev.command_queue
no_commands-IsQueue = ([], no_commands-Holds)

process_packets_serial-Returns_example :
    Returns (process_packets_serial [] receiver (b'@' ∷ b'!' ∷ []))
process_packets_serial-Returns_example =
    process_packets_serial-Returns [] receiver [] (b'@' ∷ b'!' ∷ [])
      (no_bytes-Holds, no_commands-IsQueue) ((λ e. omega arith), ((λ e. omega arith), tt))

-- "IA;b9;"
abbrev texts : List (List ℕ)
texts = (b'I' ∷ b'A' ∷ []) ∷ (b'b' ∷ b'9' ∷ []) ∷ []

texts-AllPlain : AllPlain texts
unfolding is_break
texts-AllPlain = (
  (((refl, refl), ((refl, refl), tt)), omega arith),
  ((((refl, refl), ((refl, refl), tt)), omega arith), tt),
)

process_packets_serial-commands_example :
    Obeys receiver (repeated texts) (process_packets_serial [] receiver (format texts))
process_packets_serial-commands_example =
    process_packets_serial-commands texts [] receiver texts-AllPlain
      (
        ((refl, refl, refl, refl), ((refl, refl, refl, refl), tt)),
        (((refl, refl, refl, refl), ((refl, refl, refl, refl), tt)), tt),
      )
      no_bytes-Holds no_commands-Holds (omega arith) (omega arith)

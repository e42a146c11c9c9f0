-- ===== src/Segment/Tests.antt =====
-- Short packets in a buffer and in a text.
use trifecta_sdk.Common.{
  ℕ, zero, suc, ◌≡◌, refl, arith, none, some, [], ◌∷◌, ◌++◌, length, replicate,
}
use trifecta_sdk.Common.Int.{pos}
use trifecta_sdk.Packet.{Packet, obtain_packet_length, family_of}
use trifecta_sdk.Packet.Member.{size_of}
use trifecta_sdk.Base64.Encoding.{base64_encode_lem}
use trifecta_sdk.Base64.Loop.{AreBytes}
use trifecta_sdk.Base64.{base64_encode, encode_groups}
use trifecta_sdk.Device.{Device, running}
use trifecta_sdk.Device.Laws.{enqueue_all}
use trifecta_sdk.Segment.Packets.{IsPacket, joined, stored, segment_packets-joined}
use trifecta_sdk.Segment.{segment_packets}

abbrev dev : Device
dev = record {
  descriptor = record {
    device_name = [];
    device_fw = [];
    device_desc = [];
    device_sn = [];
    device_model = [];
  };
  params = record {
    communication_mode = pos 0;
    status = running;
    all_enabled_interfaces = pos 0;
    ssid = [];
    ssid_ap = [];
    pw_ap = [];
    baudrate = pos 9600;
  };
  last_received_packet = replicate 185 0;
  data_buffer = record { buffer = replicate 512 0; head = 0; tail = 0; count = 0 };
  packet_buf_queue = record { buffer = replicate 16 []; head = 0; tail = 0; count = 0 };
  command_queue = record { buffer = replicate 16 []; head = 0; tail = 0; count = 0 };
  save_context = none;
}

-- A packet of type S_PACKET_TYPE_AHRS.
abbrev ahrs : Packet
ahrs = 5 ∷ replicate 84 7

ahrs-IsPacket : IsPacket ahrs
unfolding obtain_packet_length family_of size_of
ahrs-IsPacket = (omega arith, refl)

segment_packets-joined_example :
    segment_packets dev
      (joined (ahrs ∷ ahrs ∷ []) ++ [])
      (length (joined (ahrs ∷ ahrs ∷ [])))
      (replicate 185 0)
    ≡ some (pos (suc 1), enqueue_all dev (stored (replicate 185 0) (ahrs ∷ ahrs ∷ [])))
segment_packets-joined_example =
    segment_packets-joined dev ahrs (ahrs ∷ []) [] (replicate 185 0)
      (ahrs-IsPacket, (ahrs-IsPacket, tt)) (omega arith)

replicate-AreBytes : (n : ℕ) → AreBytes (replicate n 7)
replicate-AreBytes zero = tt
replicate-AreBytes (suc n) = (omega arith, replicate-AreBytes n)

ahrs-AreBytes : AreBytes ahrs
ahrs-AreBytes = (omega arith, replicate-AreBytes 84)

ahrs_text : base64_encode ahrs 117 ≡ some (encode_groups ahrs)
ahrs_text = base64_encode_lem ahrs 117

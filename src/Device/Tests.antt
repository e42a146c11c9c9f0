-- ===== src/Device/Tests.antt =====
-- A device with two packets in its queue and a running saver.
use trifecta_sdk.Common.{ℕ, ◌+◌, ◌≡◌, ◌≢◌, refl, arith, some, List, [], ◌∷◌, ◌++◌, replicate}
use trifecta_sdk.Common.Int.{pos}
use trifecta_sdk.Floats.{Floats}
use trifecta_sdk.RingBuffer.Refine.{Holds}
use trifecta_sdk.RingBuffer.KeepLast.{keep_last}
use trifecta_sdk.RingBuffer.Operations.{init-Holds}
use trifecta_sdk.RingBuffer.{Ring, init}
use trifecta_sdk.Packet.Structs.{composite_packet_2}
use trifecta_sdk.Packet.Member.{omega_x0, omega_y0, omega_z0}
use trifecta_sdk.Packet.Accessors.{vector, scaled_acceleration, acceleration_from_packet}
use trifecta_sdk.Packet.{Packet, composite2, family_of, packet_type}
use trifecta_sdk.Device.Laws.{Feeds, enqueue_all, enqueue_all-Feeds, get_raw_packet-enqueue}
use trifecta_sdk.Device.Agreement.{
  get_acceleration-from_packet, acceleration_from_packet-composite2,
}
use trifecta_sdk.Device.Queue.{get_raw_packet}
use trifecta_sdk.Device.Getters.{get_acceleration}
use trifecta_sdk.Device.{Device, running, max_packet_queue_length}

abbrev cells : Ring Packet
cells = record { buffer = replicate 16 []; head = 2; tail = 3; count = 1 }

abbrev dev : Device
dev = record {
  descriptor = record {
    device_name = [];
    device_fw = [];
    device_desc = [];
    device_sn = [];
    device_model = [];
  };
  params = record {
    communication_mode = pos 0;
    status = running;
    all_enabled_interfaces = pos 0;
    ssid = [];
    ssid_ap = [];
    pw_ap = [];
    baudrate = pos 9600;
  };
  last_received_packet = replicate 185 0;
  data_buffer = record { buffer = replicate 512 0; head = 0; tail = 0; count = 0 };
  packet_buf_queue = init cells;
  command_queue = record { buffer = replicate 16 []; head = 0; tail = 0; count = 0 };
  save_context = some (record { packets_to_save = init cells; running_status = running });
}

no_packets-Holds : Holds max_packet_queue_length (init cells) []
no_packets-Holds = init-Holds 16 cells (omega arith) (omega arith) refl

abbrev packets : List Packet
packets = (5 ∷ 1 ∷ []) ∷ (0 ∷ 2 ∷ []) ∷ []

enqueue_all-Feeds_example :
    Feeds
      (enqueue_all dev packets)
      (keep_last max_packet_queue_length ([] ++ packets))
      (keep_last max_packet_queue_length ([] ++ packets))
enqueue_all-Feeds_example =
    enqueue_all-Feeds packets dev [] [] (no_packets-Holds, (refl, no_packets-Holds)) (omega arith)

get_raw_packet-enqueue_example :
    get_raw_packet (enqueue_all dev ((5 ∷ []) ∷ [] ++ (0 ∷ []) ∷ [])) ≡ 0 ∷ []
get_raw_packet-enqueue_example = get_raw_packet-enqueue ((5 ∷ []) ∷ []) dev (0 ∷ [])

abbrev fed : Device
fed = enqueue_all dev packets

fed-Holds : Holds max_packet_queue_length fed.packet_buf_queue packets
unfolding keep_last
fed-Holds = enqueue_all-Feeds_example.0

-- Floats as their bits, enough to run the readings.
abbrev bits : Floats
bits = record {
  Float = ℕ;
  Double = ℕ;
  float_of_bits = λ n. n;
  double_of_bits = λ n. n;
  literal = λ n d. n;
  add = λ a b. a + b;
  sub = λ a b. a;
  mul = λ a b. a + b;
  div = λ a b. a;
  neg = λ a. a;
  atan2f = λ a b. a;
  asinf = λ a. a;
}

abbrev regular_dev : Device
regular_dev = record dev { last_received_packet = 5 ∷ replicate 84 1 }

regular_type : family_of (packet_type regular_dev.last_received_packet) ≢ composite2
unfolding family_of
regular_type = λ e. cc

get_acceleration-from_packet_example :
    get_acceleration bits regular_dev
    ≡ acceleration_from_packet bits regular_dev.last_received_packet
get_acceleration-from_packet_example = get_acceleration-from_packet bits regular_dev regular_type

abbrev long_packet : Packet
long_packet = 10 ∷ replicate 180 1

long_type : family_of (packet_type long_packet) ≡ composite2
unfolding family_of
long_type = refl

acceleration_from_packet-composite2_example :
    acceleration_from_packet bits long_packet
    ≡ some (
        scaled_acceleration bits
          (vector bits composite_packet_2 long_packet omega_x0 omega_y0 omega_z0))
acceleration_from_packet-composite2_example =
    acceleration_from_packet-composite2 bits long_packet long_type

-- ===== src/Commands/Tests.antt =====
-- Commands on short buffers.
use trifecta_sdk.Common.{ℕ, ◌≡◌, refl, arith, none, some, zero, suc, List, [], ◌∷◌, ◌++◌, replicate}
use trifecta_sdk.Common.Int.{pos, negsuc}
use trifecta_sdk.RingBuffer.Refine.{Holds}
use trifecta_sdk.RingBuffer.Operations.{init-Holds}
use trifecta_sdk.RingBuffer.{Ring, init}
use trifecta_sdk.Device.{Device, running, max_cmd_queue_length}
use trifecta_sdk.Commands.Atoi.{atoi, digits, skip_space, is_digit, is_space}
use trifecta_sdk.Commands.Payload.{payloads, format, IsPlain, AllPlain}
use trifecta_sdk.Commands.Segmenting.{segment_commands-format}
use trifecta_sdk.Commands.Handling.{
  Obeyed, handle_received_commands-format, handle_received_commands-full,
}
use trifecta_sdk.Commands.Invariant.{Handles, handle_received_commands-IsQueue}
use trifecta_sdk.Commands.{is_break, segment_commands, handle_received_commands, no_payload}

atoi_baud : atoi (32 ∷ b'1' ∷ b'1' ∷ b'5' ∷ b'x' ∷ []) ≡ pos 115
unfolding atoi digits skip_space is_digit is_space
atoi_baud = refl

atoi_query : atoi (b'-' ∷ b'1' ∷ 0 ∷ []) ≡ negsuc 0
unfolding atoi digits skip_space is_digit is_space
atoi_query = refl

abbrev cells : Ring (List ℕ)
cells = record { buffer = replicate 16 no_payload; head = 3; tail = 4; count = 5 }

abbrev dev : Device
dev = record {
  descriptor = record {
    device_name = replicate 32 0;
    device_fw = replicate 32 0;
    device_desc = replicate 64 0;
    device_sn = replicate 32 0;
    device_model = replicate 32 0;
  };
  params = record {
    communication_mode = pos 0;
    status = running;
    all_enabled_interfaces = pos 0;
    ssid = replicate 32 0;
    ssid_ap = replicate 32 0;
    pw_ap = replicate 64 0;
    baudrate = pos 9600;
  };
  last_received_packet = replicate 185 0;
  data_buffer = record { buffer = replicate 512 0; head = 0; tail = 0; count = 0 };
  packet_buf_queue = record { buffer = []; head = 0; tail = 0; count = 0 };
  command_queue = init cells;
  save_context = none;
}

no_commands-Holds : Holds max_cmd_queue_length (init cells) []
no_commands-Holds = init-Holds 16 cells (omega arith) (omega arith) refl

-- "Iab;b9;"
abbrev texts : List (List ℕ)
texts = (b'I' ∷ b'a' ∷ b'b' ∷ []) ∷ (b'b' ∷ b'9' ∷ []) ∷ []

texts-AllPlain : AllPlain texts
unfolding is_break
texts-AllPlain = (
  (((refl, refl), ((refl, refl), ((refl, refl), tt))), omega arith),
  ((((refl, refl), ((refl, refl), tt)), omega arith), tt),
)

handle_received_commands-format_example :
    Obeyed dev ([] ++ payloads texts) (handle_received_commands dev (format texts))
handle_received_commands-format_example =
    handle_received_commands-format dev texts [] texts-AllPlain no_commands-Holds (omega arith)

handle_received_commands-IsQueue_example :
    Handles dev (handle_received_commands dev (b'I' ∷ 10 ∷ []))
handle_received_commands-IsQueue_example =
    handle_received_commands-IsQueue dev (b'I' ∷ 10 ∷ []) ([], no_commands-Holds)

abbrev many : List (List ℕ)
many = replicate 16 (b'I' ∷ [])

abbrev full_dev : Device
full_dev = record dev { command_queue = (segment_commands (init cells) (format many)).1 }

one-IsPlain : IsPlain (b'I' ∷ [])
unfolding is_break
one-IsPlain = ((refl, refl), tt)

replicate-AllPlain : (n : ℕ) → AllPlain (replicate n (b'I' ∷ []))
replicate-AllPlain zero = tt
replicate-AllPlain (suc n) = ((one-IsPlain, omega arith), replicate-AllPlain n)

full-Holds : Holds max_cmd_queue_length full_dev.command_queue (payloads many)
full-Holds =
    (segment_commands-format many (init cells) [] (replicate-AllPlain 16) no_commands-Holds
      (omega arith)).1

handle_received_commands-full_example :
    handle_received_commands full_dev ((b'I' ∷ []) ++ b';' ∷ []) ≡ some (negsuc 0, full_dev)
handle_received_commands-full_example =
    handle_received_commands-full full_dev (b'I' ∷ []) [] (payloads many) one-IsPlain (omega arith)
      full-Holds refl

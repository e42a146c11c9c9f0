-- ===== src/Device.antt =====
-- The device handle of include/FS_Trifecta_Defs.h, with the parts of it that the receiving code reads
-- and writes, and the saver that its `save_context` may point to.
pub mod Queue
pub mod Getters
pub mod Laws
pub mod Agreement
mod Tests
use trifecta_sdk.Common.{ℕ, Bool, Option, none, some, List, []}
use trifecta_sdk.Common.Int.{ℤ, pos, negsuc}
use trifecta_sdk.RingBuffer.{Ring, push_force}
use trifecta_sdk.Packet.{Packet}

-- `fs_run_status_t`.
pub data RunStatus : Type 0 where
  error idle running : RunStatus

-- FS_MAX_PACKET_QUEUE_LENGTH and FS_MAX_CMD_QUEUE_LENGTH.
abbrev pub max_packet_queue_length : ℕ
max_packet_queue_length = 16

abbrev pub max_cmd_queue_length : ℕ
max_cmd_queue_length = 16

-- FS_MAX_CMD_LENGTH.
abbrev pub max_cmd_length : ℕ
max_cmd_length = 256

-- `fs_device_descriptor_t`: the character arrays, whole.
pub record Descriptor : Type 0 where
  pub device_name : List ℕ
  pub device_fw : List ℕ
  pub device_desc : List ℕ
  pub device_sn : List ℕ
  pub device_model : List ℕ

-- `fs_device_params_t`, less the sockets, the ports, the paths and the timestamps.
pub record Params : Type 0 where
  pub communication_mode : ℤ
  pub status : RunStatus
  pub all_enabled_interfaces : ℤ
  pub ssid : List ℕ
  pub ssid_ap : List ℕ
  pub pw_ap : List ℕ
  pub baudrate : ℤ

-- `fs_save_device_t`: what `fs_save_on_packet` reads and writes.
pub record Saver : Type 0 where
  pub packets_to_save : Ring Packet
  pub running_status : RunStatus

-- `fs_device_info_t`. A command of the queue is its payload; nothing reads its `source`.
pub record Device : Type 0 where
  pub descriptor : Descriptor
  pub params : Params
  pub last_received_packet : Packet
  pub data_buffer : Ring ℕ
  pub packet_buf_queue : Ring Packet
  pub command_queue : Ring (List ℕ)
  pub save_context : Option Saver

-- `fs_save_on_packet`, with its result.
unfoldable pub save_on_packet : Saver → Packet → ℤ × Saver
save_on_packet saver packet = elim saver.running_status [
  | running ↦ (
    pos 0,
    record saver {
      packets_to_save = (push_force max_packet_queue_length saver.packets_to_save packet).1;
    },
  )
  | _ ↦ (negsuc 1, saver)
]

-- The call through `save_context`, which is skipped where that is NULL.
unfoldable pub save_if_enabled : Option Saver → Packet → Option Saver
save_if_enabled none packet = none
save_if_enabled (some saver) packet = some (save_on_packet saver packet).1

-- `fs_enqueue_into_packet_queue`. The forced push cannot fail, so the call returns 0.
unfoldable pub enqueue_into_packet_queue : Device → Packet → Device
enqueue_into_packet_queue dev packet = record dev {
  packet_buf_queue = (push_force max_packet_queue_length dev.packet_buf_queue packet).1;
  last_received_packet = packet;
  save_context = save_if_enabled dev.save_context packet;
}

-- ===== src/Link.antt =====
-- The links to a device: the wired one of common/FS_Trifecta_Serial.c and the networked one of
-- common/FS_Trifecta_Networked.c, over the functions of include/FS_Trifecta_Interfaces.h, which each
-- platform implements and which are parameters here.
pub mod Message
pub mod Decimal
pub mod Wired
pub mod Failing
pub mod Ports
pub mod Network
pub mod Updating
pub mod Listening
pub mod Sample
mod Tests
use trifecta_sdk.Common.{ℕ, ◌*◌, Bool, Option, none, List, [], replicate, false}
use trifecta_sdk.Common.Int.{ℤ, pos, negsuc}
use trifecta_sdk.RingBuffer.{Ring}
use trifecta_sdk.Packet.{packet_size}
use trifecta_sdk.Device.{
  Device, Descriptor, Params, idle, max_packet_queue_length, max_cmd_queue_length, max_cmd_length,
}

-- `fs_driver_config_t`.
pub record Config : Type 0 where
  pub use_serial_interrupt_mode : Bool
  pub serial_data_ready_gpio : ℤ
  pub background_task_priority : ℤ
  pub background_task_core_affinity : ℤ
  pub read_timeout_micros : ℤ
  pub task_wait_ms : ℤ
  pub task_stack_size_bytes : ℤ

-- `fs_device_info_t` whole, but for the sockets, the paths and the thread's handle, which only the
-- platform's code uses.
pub record Handle : Type 0 where
  pub device : Device
  pub config : Config
  pub ip_addr : List ℕ
  pub tcp_port : ℤ
  pub udp_port : ℤ
  pub serial_port : ℤ
  pub ping : ℤ

-- The three functions that `fs_thread_start` is given.
pub data Thread : Type 0 where
  serial_update tcp_update udp_update : Thread

-- What a receiving function returns: -(n + 1), and then it stored nothing, or how many bytes it stored,
-- with those bytes.
pub data Received : Type 0 where
  failed : ℕ → Received
  got : List ℕ → Received

-- What becomes of a call that reads a receive buffer: it reads past the end of the buffer, it does not
-- return within its fuel, or it returns a value.
pub data Outcome {ℓ} (A : Type ℓ) : Type ℓ where
  overread stuck : Outcome A
  back : A → Outcome A

-- The functions of a platform, over what they see of the world.
pub record Platform : Type 1 where
  pub World : Type 0
  pub default_config : Config
  pub transmit_serial : Handle → List ℕ → ℕ → World → ℤ × World
  pub receive_serial : Handle → ℕ → ℤ → World → Received × World
  pub transmit_networked_tcp : Handle → List ℕ → ℕ → World → ℤ × World
  pub receive_networked_tcp : Handle → ℕ → ℤ → World → Received × World
  pub receive_networked_udp : Handle → ℕ → ℤ → World → Received × World
  pub init_serial_driver : Handle → World → ℤ × Handle × World
  pub shutdown_serial_driver : Handle → World → ℤ × Handle × World
  pub init_network_tcp_driver : Handle → World → ℤ × Handle × World
  pub init_network_udp_driver : Handle → World → ℤ × Handle × World
  pub shutdown_network_tcp_driver : Handle → World → ℤ × Handle × World
  pub shutdown_network_udp_driver : Handle → World → ℤ × Handle × World
  pub attempt_reconnect_network_tcp : Handle → World → ℤ × Handle × World
  pub attempt_reconnect_network_udp : Handle → World → ℤ × Handle × World
  -- Whether `fs_platform_supported_serial_interrupts` has the bit of a mode.
  pub interrupts_for : ℤ → Bool
  pub init_serial_interrupts : Handle → World → ℤ × Handle × World
  pub thread_start : Thread → Handle → World → ℤ × Handle × World
  pub delay : ℤ → World → World

-- The communication modes.
abbrev pub uninitialized : ℤ
uninitialized = negsuc 0

abbrev pub usb_cdc : ℤ
usb_cdc = pos 0

abbrev pub uart : ℤ
uart = pos 1

abbrev pub tcp_udp : ℤ
tcp_udp = pos 2

abbrev pub tcp_udp_ap : ℤ
tcp_udp_ap = pos 4

abbrev pub i2c : ℤ
i2c = pos 16

abbrev pub spi : ℤ
spi = pos 64

abbrev pub mode_of : Handle → ℤ
mode_of h = h.device.params.communication_mode

abbrev pub set_mode : ℤ → Handle → Handle
set_mode mode h = record h {
  device = record h.device { params = record h.device.params { communication_mode = mode } };
}

-- `memset` of a handle to 0.
unfoldable pub zero_device : Device
zero_device = record {
  descriptor = record {
    device_name = replicate 32 0;
    device_fw = replicate 32 0;
    device_desc = replicate 64 0;
    device_sn = replicate 32 0;
    device_model = replicate 32 0;
  };
  params = record {
    communication_mode = pos 0;
    status = idle;
    all_enabled_interfaces = pos 0;
    ssid = replicate 32 0;
    ssid_ap = replicate 32 0;
    pw_ap = replicate 64 0;
    baudrate = pos 0;
  };
  last_received_packet = replicate packet_size 0;
  data_buffer = record { buffer = replicate 512 0; head = 0; tail = 0; count = 0 };
  packet_buf_queue = record {
    buffer = replicate max_packet_queue_length (replicate packet_size 0);
    head = 0;
    tail = 0;
    count = 0;
  };
  command_queue = record {
    buffer = replicate max_cmd_queue_length (replicate max_cmd_length 0);
    head = 0;
    tail = 0;
    count = 0;
  };
  save_context = none;
}

unfoldable pub zero_handle : Handle
unfolding zero_device
zero_handle = record {
  device = zero_device;
  config = record {
    use_serial_interrupt_mode = false;
    serial_data_ready_gpio = pos 0;
    background_task_priority = pos 0;
    background_task_core_affinity = pos 0;
    read_timeout_micros = pos 0;
    task_wait_ms = pos 0;
    task_stack_size_bytes = pos 0;
  };
  ip_addr = replicate 39 0;
  tcp_port = pos 0;
  udp_port = pos 0;
  serial_port = pos 0;
  ping = pos 0;
}

-- FS_DEVICE_INFO_UNINITIALIZED on a platform with this default configuration.
unfoldable pub new_handle : Config → Handle
unfolding zero_handle
new_handle config =
    set_mode uninitialized
      (record zero_handle { config = config; tcp_port = pos 8888; serial_port = negsuc 0 })

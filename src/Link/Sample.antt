-- ===== src/Link/Sample.antt =====
-- A platform and a device for the tests.
use trifecta_sdk.Common.{ℕ, refl, arith, false, List, [], ◌∷◌}
use trifecta_sdk.Common.Int.{ℤ, pos}
use trifecta_sdk.RingBuffer.{init}
use trifecta_sdk.RingBuffer.Refine.{Holds}
use trifecta_sdk.RingBuffer.Operations.{init-Holds}
use trifecta_sdk.Device.{Device, max_cmd_queue_length}
use trifecta_sdk.Link.{Platform, Config, Received, zero_device}

abbrev pub settings : Config
settings = record {
  use_serial_interrupt_mode = false;
  serial_data_ready_gpio = pos 0;
  background_task_priority = pos 1;
  background_task_core_affinity = pos 0;
  read_timeout_micros = pos 500;
  task_wait_ms = pos 1;
  task_stack_size_bytes = pos 4096;
}

-- A platform whose ports send everything, or fail to, and which receive the same each time.
abbrev pub platform : ℤ → Received → Platform
platform sent received = record {
  World = List (List ℕ);
  default_config = settings;
  transmit_serial = λ h text timeout w. (sent, text ∷ w);
  receive_serial = λ h size timeout w. (received, w);
  transmit_networked_tcp = λ h text timeout w. (sent, text ∷ w);
  receive_networked_tcp = λ h size timeout w. (received, w);
  receive_networked_udp = λ h size timeout w. (received, w);
  init_serial_driver = λ h w. (pos 0, h, w);
  shutdown_serial_driver = λ h w. (pos 0, h, w);
  init_network_tcp_driver = λ h w. (pos 0, h, w);
  init_network_udp_driver = λ h w. (pos 0, h, w);
  shutdown_network_tcp_driver = λ h w. (pos 0, h, w);
  shutdown_network_udp_driver = λ h w. (pos 0, h, w);
  attempt_reconnect_network_tcp = λ h w. (pos 0, h, w);
  attempt_reconnect_network_udp = λ h w. (pos 0, h, w);
  interrupts_for = λ mode. false;
  init_serial_interrupts = λ h w. (pos 0, h, w);
  thread_start = λ thread h w. (pos 0, h, w);
  delay = λ ms w. w;
}

abbrev pub ready_device : Device
ready_device = record zero_device { command_queue = init zero_device.command_queue }

pub no_commands-Holds : Holds max_cmd_queue_length ready_device.command_queue []
unfolding zero_device
no_commands-Holds = init-Holds 16 zero_device.command_queue (omega arith) (omega arith) refl

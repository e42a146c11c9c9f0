-- ===== src/Driver/Tests.antt =====
-- The driver on a platform that logs what it sends.
use trifecta_sdk.Common.{ℕ, ◌≡◌, ◌≢◌, refl, arith, true, false, some, List, [], ◌∷◌}
use trifecta_sdk.Common.Int.{pos, negsuc}
use trifecta_sdk.RingBuffer.{Ring}
use trifecta_sdk.RingBuffer.Refine.{Holds}
use trifecta_sdk.Device.{Device, max_cmd_queue_length, max_cmd_length}
use trifecta_sdk.Commands.Payload.{payloads, format, AllPlain}
use trifecta_sdk.Commands.Handling.{obey, Obeyed, handle_received_commands-format}
use trifecta_sdk.Commands.{Info, is_break, handle_received_commands}
use trifecta_sdk.Link.Message.{numeric, printed}
use trifecta_sdk.Link.Wired.{
  serial_send_message, serial_start, serial_exit, serial_hello, clear_name,
}
use trifecta_sdk.Link.{
  Platform, Handle, overread, back, failed, got, uninitialized, mode_of, set_mode, zero_handle,
  zero_device, new_handle,
}
use trifecta_sdk.Link.Sample.{settings, platform, ready_device, no_commands-Holds}
use trifecta_sdk.Driver.Commands.{start_stream, set_network_parameters}
use trifecta_sdk.Driver.Texts.{handle_received_commands-numeric}
use trifecta_sdk.Driver.Lifecycle.{
  closedown-start_stream, set_network_parameters-wired_only, serial_start-overread,
  initialize_serial-unclosed,
}
use trifecta_sdk.Driver.{
  wired, medium_of, is_running, closedown, close, initialize_serial, configured, set_port,
}

abbrev good : Platform
good = platform (pos 1) (got (b'I' ∷ b'a' ∷ b'b' ∷ b';' ∷ []))

abbrev deaf : Platform
deaf = platform (pos 1) (failed 0)

abbrev mute : Platform
mute = platform (negsuc 0) (failed 0)

abbrev wired_handle : Handle
wired_handle = set_mode (pos 0) (new_handle settings)

handle_received_commands-numeric_example :
    (queue : Ring (List ℕ)) × Holds max_cmd_queue_length queue []
    × (handle_received_commands ready_device (printed max_cmd_length (numeric b't' (negsuc 64)))
        ≡ some (
          pos 0,
          record ready_device {
            command_queue = queue;
            params = record ready_device.params { all_enabled_interfaces = negsuc 64 };
          },
        ))
handle_received_commands-numeric_example =
    handle_received_commands-numeric ready_device (negsuc 64) (omega arith) no_commands-Holds

closed : (closedown good wired_handle []).0 ≡ pos 0
unfolding closedown close serial_exit medium_of new_handle zero_handle
closed = refl

closedown-start_stream_example :
    (start_stream good (new_handle settings) [] ≡ (negsuc 0, []))
    × ((closedown good wired_handle []).1.serial_port ≡ pos 0)
    × (start_stream good (closedown good wired_handle []).1 []
        ≡ serial_send_message good (closedown good wired_handle []).1 (numeric b'A' (pos 1)) [])
closedown-start_stream_example = closedown-start_stream good settings wired_handle [] [] closed

unwired : medium_of (mode_of (new_handle settings)) ≢ wired
unfolding medium_of new_handle
unwired = λ e. cc

set_network_parameters-wired_only_example :
    set_network_parameters good (new_handle settings) (b'a' ∷ []) (b'b' ∷ []) true []
    ≡ (negsuc 0, [])
set_network_parameters-wired_only_example =
    set_network_parameters-wired_only good (new_handle settings) (b'a' ∷ []) (b'b' ∷ []) true []
      unwired

serial_start-overread_example : serial_start deaf wired_handle [] ≡ overread
serial_start-overread_example =
    serial_start-overread deaf wired_handle (clear_name wired_handle) (pos 1) 0 [] []
      (serial_hello ∷ []) (serial_hello ∷ []) refl refl refl refl (omega arith)

abbrev started : Handle
started =
    clear_name (set_port (pos 3) (set_mode (pos 0) (configured settings (new_handle settings))))

new_idle : is_running (new_handle settings) ≡ false
unfolding new_handle zero_handle zero_device
new_idle = refl

initialize_serial-unclosed_example :
    let h2 = set_mode uninitialized started in
    (initialize_serial mute (new_handle settings) (pos 3) (pos 0) []
      ≡ back (negsuc 8, h2, serial_hello ∷ []))
    × (closedown mute h2 (serial_hello ∷ []) ≡ (negsuc 0, h2, serial_hello ∷ []))
initialize_serial-unclosed_example =
    initialize_serial-unclosed mute (new_handle settings) started (pos 3) (pos 0) 0 [] []
      (serial_hello ∷ []) new_idle refl refl

abbrev ready : Handle
ready = record wired_handle { device = ready_device }

-- The answer of `good`, "Iab;".
abbrev answer : List (List ℕ)
answer = (b'I' ∷ b'a' ∷ b'b' ∷ []) ∷ []

answer-AllPlain : AllPlain answer
unfolding is_break
answer-AllPlain = ((((refl, refl), ((refl, refl), ((refl, refl), tt))), omega arith), tt)

obeyed :
    Obeyed
      (clear_name ready).device
      (payloads answer)
      (handle_received_commands (clear_name ready).device (format answer))
obeyed =
    handle_received_commands-format (clear_name ready).device answer [] answer-AllPlain
      no_commands-Holds (omega arith)

abbrev named_info : Info
named_info = obey (payloads answer) (record {
  descriptor = (clear_name ready).device.descriptor;
  params = (clear_name ready).device.params;
})

abbrev named : Handle
named = record (clear_name ready) {
  device = record (clear_name ready).device {
    command_queue = obeyed.queue;
    descriptor = named_info.descriptor;
    params = named_info.params;
  };
}

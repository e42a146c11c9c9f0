-- ===== src/Commands.antt =====
-- The commands that a device receives: fs_segment_commands of common/FS_Trifecta_Device_Utils.c, which
-- puts each text before a ';' in the command queue, and fs_handle_received_commands of
-- common/FS_Trifecta_Device.c, which then takes them out and obeys them.
pub mod Atoi
pub mod Payload
pub mod Segmenting
pub mod Handling
pub mod Invariant
mod Tests
use trifecta_sdk.Common.{
  ℕ, zero, suc, ◌+◌, ◌-◌, ◌||◌, Bool, true, false, Option, none, some, List, [], ◌∷◌, ltb, ◌==◌,
  set, replicate, drop, get_or, if◌then◌else◌,
}
use trifecta_sdk.Common.Int.{ℤ, pos, negsuc, is_pos}
use trifecta_sdk.CString.{strncpy}
use trifecta_sdk.RingBuffer.{Ring, push, pop}
use trifecta_sdk.Commands.Atoi.{atoi}
use trifecta_sdk.Device.{Device, Descriptor, Params, max_cmd_queue_length, max_cmd_length}

-- The payload of a cleared `fs_command_info_t`.
abbrev pub no_payload : List ℕ
no_payload = replicate max_cmd_length 0

-- The segmenter's `state`.
pub data State : Type 0 where
  waiting reading : State

-- The segmenter's variables, and the queue it fills.
pub record Segmenter : Type 0 where
  pub payload : List ℕ
  pub input_pos : ℕ
  pub state : State
  pub queue : Ring (List ℕ)

-- '\n', '\r' and '\0'.
unfoldable pub is_break : ℕ → Bool
is_break in_byte = in_byte == 10 || in_byte == 13 || in_byte == 0

-- One round of the loop of `fs_segment_commands`: the value returned in it, if any.
unfoldable pub segment_byte : ℕ → Segmenter → Option ℤ × Segmenter
segment_byte in_byte s =
    if in_byte == b';'
    then (let cmd = set s.payload s.input_pos 0 in
        let (pushed, queue) = push max_cmd_queue_length s.queue cmd in
        if pushed
        then (none, record { payload = no_payload; input_pos = 0; state = waiting; queue = queue })
        else (some (negsuc 0), record s { payload = cmd; queue = queue }))
    else if is_break in_byte
    then (let cleared = record s { payload = no_payload; input_pos = 0 } in
        elim s.state [ waiting ↦ (none, cleared) | reading ↦ (some (pos 3), cleared) ])
    else if ltb s.input_pos (max_cmd_length - 1)
    then (
      none,
      record s {
        payload = set s.payload s.input_pos in_byte;
        input_pos = s.input_pos + 1;
        state = reading;
      },
    )
    else (none, record s { payload = no_payload; input_pos = 0; state = reading })

unfoldable pub segment_bytes : List ℕ → Segmenter → ℤ × Segmenter
segment_bytes [] s = (pos 0, s)
segment_bytes (in_byte ∷ rest) s =
    let (result, s') = segment_byte in_byte s in
    elim result [ none ↦ segment_bytes rest s' | some r ↦ (r, s') ]

abbrev pub start : Ring (List ℕ) → Segmenter
start queue = record { payload = no_payload; input_pos = 0; state = waiting; queue = queue }

-- `fs_segment_commands`: the value returned and the queue.
unfoldable pub segment_commands : Ring (List ℕ) → List ℕ → ℤ × Ring (List ℕ)
unfolding segment_bytes
segment_commands queue input =
    let (result, s) = segment_bytes input (start queue) in (result, s.queue)

-- What commands change of a device.
pub record Info : Type 0 where
  pub descriptor : Descriptor
  pub params : Params

-- A copy into a character array of the given size, and its last byte cleared.
abbrev pub copy_into : ℕ → List ℕ → List ℕ → List ℕ
copy_into size dest src = set (strncpy dest src (size - 1)) (size - 1) 0

-- The switch of `fs_handle_received_commands`, for the payload of a command.
unfoldable pub handle_command : List ℕ → Info → Info
handle_command payload info =
    let cmd_char = get_or payload 0 0 in
    let text = drop 1 payload in
    let d = info.descriptor in
    let p = info.params in
    if cmd_char == b'I'
    then record info { descriptor = record d { device_name = copy_into 32 d.device_name text } }
    else if cmd_char == b'b'
    then (if is_pos (atoi text)
        then record info { params = record p { baudrate = atoi text } }
        else info)
    else if cmd_char == b's'
    then record info { params = record p { ssid = copy_into 32 p.ssid text } }
    else if cmd_char == b'1'
    then record info { params = record p { ssid_ap = copy_into 32 p.ssid_ap text } }
    else if cmd_char == b'3'
    then record info { params = record p { pw_ap = copy_into 64 p.pw_ap text } }
    else if cmd_char == b't'
    then record info { params = record p { all_enabled_interfaces = atoi text } }
    else if cmd_char == b'p'
    then record info { descriptor = record d { device_sn = copy_into 32 d.device_sn text } }
    else if cmd_char == b'm'
    then record info { descriptor = record d { device_model = copy_into 32 d.device_model text } }
    else if cmd_char == b'f'
    then record info { descriptor = record d { device_fw = copy_into 32 d.device_fw text } }
    else if cmd_char == b'd'
    then record info { descriptor = record d { device_desc = copy_into 64 d.device_desc text } }
    else info

-- The loop that empties the queue, `none` where the fuel runs out. `cmd` is what the loop's variable
-- holds, cleared after each round.
unfoldable pub handle_queue : ℕ → Ring (List ℕ) → Info → Option (Ring (List ℕ) × Info)
handle_queue zero queue info = none
handle_queue (suc fuel) queue info =
    let (found, cmd, queue') = pop max_cmd_queue_length queue no_payload in
    let rest = handle_queue fuel queue' (handle_command cmd info) in
    if found then rest else some (queue', info)

-- A full queue takes 16 rounds, and the last one finds it empty.
abbrev pub handle_fuel : ℕ
handle_fuel = 17

-- `fs_handle_received_commands`.
unfoldable pub handle_received_commands : Device → List ℕ → Option (ℤ × Device)
handle_received_commands dev cmd_buf =
    let (result, queue) = segment_commands dev.command_queue cmd_buf in
    elim result [
      | pos zero ↦
          elim (handle_queue handle_fuel queue
            (record { descriptor = dev.descriptor; params = dev.params })) [
              | none ↦ none
              | some (queue', info) ↦ some (
                pos 0,
                record dev {
                  command_queue = queue';
                  descriptor = info.descriptor;
                  params = info.params;
                },
              )
            ]
      | _ ↦ some (negsuc 0, record dev { command_queue = queue })
    ]

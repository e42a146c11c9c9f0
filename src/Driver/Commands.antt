-- ===== src/Driver/Commands.antt =====
-- common/FS_Trifecta.c: the functions that send a command. printf's floats are a parameter.
use trifecta_sdk.Common.{ℕ, zero, ◌*◌, Bool, true, false, List, [], ◌∷◌, ◌++◌, if◌then◌else◌}
use trifecta_sdk.Common.Int.{ℤ, pos, negsuc}
use trifecta_sdk.Floats.{Floats, Vector3}
use trifecta_sdk.Device.{Params, Descriptor, max_cmd_length}
use trifecta_sdk.Link.Message.{decimal, numeric, textual, printed}
use trifecta_sdk.Link.Network.{is_port}
use trifecta_sdk.Link.Wired.{rx_size}
use trifecta_sdk.Link.{Platform, Handle, mode_of}
use trifecta_sdk.Driver.{networked, access_point, medium_of, send_command, closedown}

-- printf's "%.<n>f" for the two sizes of float.
pub record Printer (F : Floats) : Type 0 where
  pub float : ℕ → F.Float → List ℕ
  pub double : ℕ → F.Double → List ℕ

-- ";%c-1;…" for the nine parameters that are asked for; each text ends where the next begins.
abbrev pub queries : List ℕ → List ℕ
queries [] = []
queries (cmd ∷ cmds) = cmd ∷ b'-' ∷ b'1' ∷ b';' ∷ queries cmds

unfoldable pub identify_all : List ℕ
identify_all = b';' ∷ queries (b'I' ∷ b'f' ∷ b'd' ∷ b'p' ∷ b't' ∷ b's' ∷ b'1' ∷ b'3' ∷ b'b' ∷ [])

module _ (P : Platform) where
  -- A text in a buffer of FS_MAX_CMD_LENGTH, sent with its length.
  send_text : List ℕ → Handle → P.World → ℤ × P.World
  send_text text h w = send_command P h (printed max_cmd_length text) w

  -- `fs_start_stream`, `fs_stop_stream` and `fs_read_one_shot`.
  unfoldable pub start_stream : Handle → P.World → ℤ × P.World
  unfolding send_text
  start_stream = send_text (numeric b'A' (pos 1))

  unfoldable pub stop_stream : Handle → P.World → ℤ × P.World
  unfolding send_text
  stop_stream = send_text (numeric b'A' (pos 0))

  unfoldable pub read_one_shot : Handle → P.World → ℤ × P.World
  unfolding send_text
  read_one_shot = send_text (numeric b'A' (pos 2))

  -- `fs_reboot_device`.
  unfoldable pub reboot_device : Handle → P.World → ℤ × Handle × P.World
  unfolding send_text
  reboot_device h w =
      let (ret, w') = send_text (numeric b'R' (pos 0)) h w in
      elim ret [ negsuc n ↦ (negsuc n, h, w') | pos n ↦ closedown P h w' ]

  -- `fs_factory_reset`, which goes on for every value but -1.
  unfoldable pub factory_reset : Handle → P.World → ℤ × Handle × P.World
  unfolding send_text reboot_device
  factory_reset h w =
      let (ret, w') = send_text (numeric b'C' (pos 0)) h w in
      elim ret [ negsuc zero ↦ (negsuc 0, h, w') | _ ↦ reboot_device h w' ]

  -- `fs_set_device_name`.
  unfoldable pub set_device_name : Handle → List ℕ → P.World → ℤ × P.World
  unfolding send_text
  set_device_name h name = send_text (textual b'N' name) h

  -- `fs_set_communication_mode`.
  unfoldable pub set_communication_mode : Handle → ℤ → P.World → ℤ × P.World
  unfolding send_text
  set_communication_mode h modes = send_text (numeric b't' modes) h

  -- `fs_set_serial_uart_baudrate`.
  unfoldable pub set_serial_uart_baudrate : Handle → ℤ → P.World → ℤ × P.World
  unfolding send_text
  set_serial_uart_baudrate h baudrate = send_text (numeric b'b' baudrate) h

  -- `fs_set_network_parameters`.
  unfoldable pub set_network_parameters : Handle → List ℕ → List ℕ → Bool → P.World → ℤ × P.World
  set_network_parameters h ssid pw access_point_wanted w =
      let send = λ (s p : ℕ).
        (let message = printed (2 * max_cmd_length) (textual s ssid ++ p ∷ (pw ++ b';' ∷ [])) in
          send_command P h message w) in
      elim (medium_of (mode_of h)) [
        | networked ↦ (negsuc 0, w)
        | access_point ↦ (negsuc 0, w)
        | _ ↦ if access_point_wanted then send b'q' b'w' else send b'S' b'P'
      ]

  -- `fs_set_network_udp_port`, which sends the NUL as well.
  unfoldable pub set_network_udp_port : Handle → ℤ → P.World → ℤ × P.World
  set_network_udp_port h udp_port w =
      if is_port udp_port
      then send_command P h (printed max_cmd_length (numeric b'l' udp_port) ++ 0 ∷ []) w
      else (negsuc 0, w)

  -- What `fs_get_device_operating_state` and `fs_get_device_descriptors` do before they copy.
  query_device : Handle → P.World → Bool × P.World
  query_device h w =
      let (ret, w') = send_command P h (printed rx_size identify_all) w in
      (elim ret [ negsuc n ↦ false | pos n ↦ true ], w')

  -- `fs_get_device_operating_state`, with the structure that it writes to.
  unfoldable pub get_device_operating_state : Handle → Params → P.World → ℤ × Params × P.World
  unfolding query_device
  get_device_operating_state h device_params_info w =
      let (asked, w') = query_device h w in
      if asked then (pos 0, h.device.params, w') else (negsuc 0, device_params_info, w')

  -- `fs_get_device_descriptors`.
  unfoldable pub get_device_descriptors : Handle → Descriptor → P.World → ℤ × Descriptor × P.World
  unfolding query_device
  get_device_descriptors h desc w =
      let (asked, w') = query_device h w in
      if asked then (pos 0, h.device.descriptor, w') else (negsuc 0, desc, w')

  module _ (F : Floats) (print : Printer F) where
    -- `fs_set_ahrs_heading`.
    unfoldable pub set_ahrs_heading : Handle → F.Float → P.World → ℤ × P.World
    unfolding send_text
    set_ahrs_heading h heading_deg = send_text (textual b'y' (print.float 8 heading_deg)) h

    -- `fs_set_ins_position`, with FS_GNSS_PF_WGS84, 2, for the format.
    unfoldable pub set_ins_position : Handle → Vector3 F.Double → P.World → ℤ × P.World
    unfolding send_text
    set_ins_position h position =
        let text = textual b'0' (
          decimal (pos 2)
          ++ b','
            ∷ (print.double 10 position.x
                ++ b',' ∷ (print.double 10 position.y ++ b',' ∷ print.double 3 position.z))) in
        send_text text h

    -- "%.6f,%.6f,%.6f".
    three : Vector3 F.Float → List ℕ
    three v = print.float 6 v.x ++ b',' ∷ (print.float 6 v.y ++ b',' ∷ print.float 6 v.z)

    -- `fs_set_gnss_baseline`.
    unfoldable pub set_gnss_baseline : Handle → Vector3 F.Float → P.World → ℤ × P.World
    unfolding send_text three
    set_gnss_baseline h baseline = send_text (textual b'B' (three baseline)) h

    -- `fs_set_gnss_lever_arm`.
    unfoldable pub set_gnss_lever_arm : Handle → Vector3 F.Float → P.World → ℤ × P.World
    unfolding send_text three
    set_gnss_lever_arm h lever_arm = send_text (textual b'L' (three lever_arm)) h

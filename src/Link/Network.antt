-- ===== src/Link/Network.antt =====
-- common/FS_Trifecta_Networked.c, less the updating threads. Log lines are left out.
use trifecta_sdk.Common.{
  ℕ, zero, suc, Bool, true, false, List, [], ◌∷◌, ◌++◌, ltb, ◌==◌, ◌&&◌, replicate, not,
  if◌then◌else◌,
}
use trifecta_sdk.Common.Int.{ℤ, pos, negsuc, is_pos, equals}
use trifecta_sdk.CString.{strncpy}
use trifecta_sdk.Device.{idle, max_cmd_length}
use trifecta_sdk.Link.Message.{numeric, textual, printed}
use trifecta_sdk.Link.Wired.{
  set_status, clear_name, name_length, rx_size, rx_buffer, rx_length, read_commands,
}
use trifecta_sdk.Link.Ports.{PortMap, get_udp_port_for_device}
use trifecta_sdk.Link.{
  Platform, Handle, Outcome, overread, stuck, back, tcp_update, udp_update, uninitialized, set_mode,
}

-- The bit-or of two values of `int` is 0 only if both are.
abbrev pub both_zero : ℤ → ℤ → Bool
both_zero a b = equals a 0 && equals b 0

-- A number that is a valid port for a listener.
abbrev pub is_port : ℤ → Bool
is_port (pos n) = not (ltb n 1024) && not (ltb 65535 n)
is_port (negsuc n) = false

-- The identification command of `fs_network_start`, with its NUL.
unfoldable pub network_hello : List ℕ
unfolding numeric
network_hello =
    printed max_cmd_length
      (b';' ∷ b'I' ∷ b'0' ∷ b';' ∷ b'I' ∷ b'0' ∷ b';' ∷ b'I' ∷ b'0' ∷ b';' ∷ [])
    ++ 0 ∷ []

-- `strncpy` of the address into the cleared array, less its last character.
abbrev pub set_address : List ℕ → Handle → Handle
set_address ip_addr h = record h {
  ip_addr = strncpy (replicate 39 0) (ip_addr ++ 0 ∷ []) 38;
  tcp_port = pos 8888;
}

module _ (P : Platform) where
  -- A text that goes out over TCP and is waited for 10 ms, and whether some of it did.
  send_text : Handle → List ℕ → P.World → ℤ × P.World
  send_text h message w =
      let (sent, w') = P.transmit_networked_tcp h message 10000 w in
      (if is_pos sent then pos 0 else negsuc 0, w')

  -- `fs_network_send_message`.
  unfoldable pub network_send_message : Handle → List ℕ → P.World → ℤ × P.World
  network_send_message h message w = P.transmit_networked_tcp h message 10000 w

  -- `fs_network_set_host_udp_port`.
  unfoldable pub set_host_udp_port : Handle → ℤ → P.World → ℤ × P.World
  unfolding send_text
  set_host_udp_port h udp_port w =
      if is_port udp_port
      then send_text h (printed 128 (numeric b'l' udp_port) ++ 0 ∷ []) w
      else (negsuc 0, w)

  -- The loop of `fs_network_start` with `n` tries left.
  unfoldable pub identify_network : ℕ → Handle → P.World → Outcome (Handle × P.World)
  identify_network zero h w = back (h, w)
  identify_network (suc n) h w =
      let (sent, w1) = P.transmit_networked_tcp h network_hello 100000 w in
      let w2 = P.delay (pos 100) w1 in
      elim (is_pos sent) [
        | false ↦ identify_network n h w2
        | true ↦
            let (received, w3) = P.receive_networked_tcp h rx_size (pos 100000) w2 in
            elim (ltb 0 (rx_length received)) [
              | false ↦ identify_network n h (P.delay (pos 100) w3)
              | true ↦ elim (read_commands h.device (rx_buffer received) (rx_length received)) [
                | overread ↦ overread
                | stuck ↦ stuck
                | back (code, device) ↦
                    let h' = record h { device = device } in
                    elim (equals code 0) [
                      | true ↦ back (h', w3)
                      | false ↦ identify_network n h' (P.delay (pos 100) w3)
                    ]
              ]
            ]
      ]

  -- The two drivers shut down, with a value to return.
  shut_both : ℤ → Handle → P.World → ℤ × Handle × P.World
  shut_both code h w =
      let (udp, h1, w1) = P.shutdown_network_udp_driver h w in
      let (tcp, h2, w2) = P.shutdown_network_tcp_driver h1 w1 in (code, h2, w2)

  -- The threads of `fs_network_start`. Their values, 0 or -1, are added, and the sum is tested.
  unfoldable pub start_network_threads : Handle → P.World → ℤ × Handle × P.World
  unfolding shut_both
  start_network_threads h w =
      let (tcp, h1, w1) = P.thread_start tcp_update h w in
      let (udp, h2, w2) = P.thread_start udp_update h1 w1 in
      if both_zero tcp udp then (pos 0, h2, w2) else shut_both (negsuc 3) h2 w2

  -- What `fs_network_start` does once the loop is over. The address is the one it was given.
  unfoldable pub finish_network_start :
      PortMap → List ℕ → Handle → P.World → (ℤ × Handle × P.World) × PortMap
  unfolding start_network_threads shut_both
  finish_network_start ports ip_addr h w =
      if name_length h == 0
      then (shut_both (negsuc 2) h w, ports)
      else (let (port, ports') = get_udp_port_for_device ports ip_addr in
          let h1 = record h { udp_port = pos port } in
          let (sent, w1) = set_host_udp_port h1 (pos port) w in
          elim (equals sent 0) [
            | false ↦ (shut_both (negsuc 1) (set_mode uninitialized h1) w1, ports')
            | true ↦
                let (status, h2, w2) = P.init_network_udp_driver h1 w1 in
                elim (equals status 0) [
                  | false ↦ (shut_both (negsuc 1) (set_mode uninitialized h2) w2, ports')
                  | true ↦ (start_network_threads h2 w2, ports')
                ]
          ])

  -- `fs_network_start`. `device_port_map` and `next_index` are `ports`.
  unfoldable pub network_start :
      PortMap → List ℕ → Handle → P.World → Outcome ((ℤ × Handle × P.World) × PortMap)
  unfolding identify_network finish_network_start
  network_start ports ip_addr h w =
      let (status, h1, w1) = P.init_network_tcp_driver (set_address ip_addr (clear_name h)) w in
      elim (equals status 0) [
        | false ↦
            let (code, h2, w2) = P.shutdown_network_tcp_driver (set_mode uninitialized h1) w1 in
            back ((negsuc 0, h2, w2), ports)
        | true ↦ elim (identify_network 10 h1 (P.delay (pos 10) w1)) [
          | overread ↦ overread
          | stuck ↦ stuck
          | back (h2, w2) ↦ back (finish_network_start ports ip_addr h2 w2)
        ]
      ]

  -- `fs_network_start_device_stream`, `fs_network_stop_device_stream` and `fs_network_read_one_shot`,
  -- for 1, 0 and 2.
  unfoldable pub network_stream : ℕ → Handle → P.World → ℤ × P.World
  network_stream n h w =
      P.transmit_networked_tcp h (printed max_cmd_length (numeric b'A' (pos n))) 10000 w

  -- `fs_network_exit`, whose value is the bit-or of those of the two drivers: here 0 only if both
  -- are, and -1 otherwise. C leaves open which driver is shut down first.
  unfoldable pub network_exit : Handle → P.World → ℤ × Handle × P.World
  network_exit h w =
      let h' = set_status idle h in
      let message = printed max_cmd_length (numeric b'A' (pos 0)) in
      let w1 = P.delay (pos 5) (P.transmit_networked_tcp h' message 10000 w).1 in
      let (tcp, h1, w2) = P.shutdown_network_tcp_driver h' w1 in
      let (udp, h2, w3) = P.shutdown_network_udp_driver h1 w2 in
      (if both_zero tcp udp then pos 0 else negsuc 0, h2, w3)

  -- `fs_network_device_restart` and `fs_network_set_device_operating_mode`.
  unfoldable pub network_device_restart : Handle → P.World → ℤ × P.World
  unfolding send_text
  network_device_restart h w =
      send_text h (printed max_cmd_length (numeric b'R' (pos 0)) ++ 0 ∷ []) w

  unfoldable pub network_set_device_operating_mode : Handle → ℤ → P.World → ℤ × P.World
  unfolding send_text
  network_set_device_operating_mode h mode w =
      send_text h (printed max_cmd_length (numeric b't' mode) ++ 0 ∷ []) w

  -- `fs_network_set_network_params`.
  unfoldable pub network_set_network_params : Handle → List ℕ → List ℕ → P.World → ℤ × P.World
  unfolding send_text
  network_set_network_params h ssid password w =
      send_text h (printed 128 (textual b'S' ssid ++ b'P' ∷ (password ++ b';' ∷ [])) ++ 0 ∷ []) w

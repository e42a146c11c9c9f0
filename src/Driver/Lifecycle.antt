-- ===== src/Driver/Lifecycle.antt =====
-- Handles before a start, behind a failed start and behind the end.
use trifecta_sdk.Common.{
  ◌<◌, ◌^◌, ℕ, ◌≡◌, ◌≢◌, refl, sym, ap, ◌∙◌, Bool, true, false, List, [], ◌∷◌, ◌++◌, ◌*◌, arith,
  if◌then◌else◌,
}
use trifecta_sdk.Common.Int.{ℤ, pos, negsuc, is_pos, equals}
use trifecta_sdk.Device.{max_cmd_length}
use trifecta_sdk.Link.Message.{numeric, textual, printed}
use trifecta_sdk.Link.Wired.{
  serial_send_message, serial_start, serial_exit, identify_serial, serial_hello, asked, answered,
  identified, driver_started, rx_size, clear_name,
}
use trifecta_sdk.Link.Network.{network_exit}
use trifecta_sdk.Link.{
  Platform, Handle, Config, Outcome, overread, back, failed, uninitialized, mode_of, set_mode,
  zero_handle, new_handle,
}
use trifecta_sdk.Link.Failing.{answered-failed}
use trifecta_sdk.Driver.Texts.{printed-numeric}
use trifecta_sdk.Driver.Commands.{start_stream, set_network_parameters}
use trifecta_sdk.Driver.{
  Medium, wired, networked, access_point, no_medium, medium_of, send_command, close, closedown,
  initialize_serial, serial_started, is_running, configured, set_port,
}

module _ (P : Platform) where
  close-zero : (r : ℤ × Handle × P.World) → (close P r).0 ≡ pos 0 → (close P r).1 ≡ zero_handle
  unfolding close
  close-zero (status, h, w) e = by_status (equals status 0) e
    where
      by_status :
          (b : Bool)
          → (let r : ℤ × Handle × P.World =
                if b then (pos 0, zero_handle, w) else (negsuc 0, h, w) in
              r.0)
            ≡ pos 0
          → (let r : ℤ × Handle × P.World =
                if b then (pos 0, zero_handle, w) else (negsuc 0, h, w) in
              r.1)
            ≡ zero_handle
      by_status true e = refl
      by_status false e = cc

  -- `fs_closedown` by the medium.
  abbrev end_of : Medium → Handle → P.World → ℤ × Handle × P.World
  end_of wired h w = close P (serial_exit P h w)
  end_of networked h w = close P (network_exit P h w)
  end_of access_point h w = (negsuc 0, h, w)
  end_of no_medium h w = (negsuc 0, h, w)

  closedown-medium :
      (m : Medium) (h : Handle) (w : P.World)
      → medium_of (mode_of h) ≡ m
      → closedown P h w ≡ end_of m h w
  unfolding closedown
  closedown-medium wired h w e = rw (e, closedown) refl
  closedown-medium networked h w e = rw (e, closedown) refl
  closedown-medium access_point h w e = rw (e, closedown) refl
  closedown-medium no_medium h w e = rw (e, closedown) refl

  end_of-zero :
      (m : Medium) (h : Handle) (w : P.World)
      → (end_of m h w).0 ≡ pos 0
      → (end_of m h w).1 ≡ zero_handle
  end_of-zero wired h w e = close-zero (serial_exit P h w) e
  end_of-zero networked h w e = close-zero (network_exit P h w) e
  end_of-zero access_point h w e = cc
  end_of-zero no_medium h w e = cc

  closedown-zero :
      (h : Handle) (w : P.World) → (closedown P h w).0 ≡ pos 0 → (closedown P h w).1 ≡ zero_handle
  closedown-zero h w e =
      let same = closedown-medium (medium_of (mode_of h)) h w refl in
      ap (λ (r : ℤ × Handle × P.World). r.1) same
      ∙ end_of-zero (medium_of (mode_of h)) h w
          (ap (λ (r : ℤ × Handle × P.World). r.0) (sym same) ∙ e)

  stream-wired :
      (h : Handle) (w : P.World)
      → medium_of (mode_of h) ≡ wired
      → start_stream P h w ≡ serial_send_message P h (numeric b'A' (pos 1)) w
  unfolding start_stream send_command
  stream-wired h w e =
      rw (e, send_command)
        (ap (λ text. serial_send_message P h text w) (printed-numeric b'A' (pos 1) (omega arith)))

  zero-wired : medium_of (mode_of zero_handle) ≡ wired
  unfolding medium_of zero_handle
  zero-wired = refl

  -- fs_start_stream of a new handle returns -1 and sends nothing. Behind a fs_closedown that returned 0
  -- it does send: the handle is cleared to the mode of USB CDC, so the command goes to serial port 0.
  pub closedown-start_stream :
      (config : Config) (h : Handle) (w w' : P.World)
      → (closedown P h w).0 ≡ pos 0
      → (start_stream P (new_handle config) w' ≡ (negsuc 0, w'))
        × ((closedown P h w).1.serial_port ≡ pos 0)
        × (start_stream P (closedown P h w).1 w'
            ≡ serial_send_message P (closedown P h w).1 (numeric b'A' (pos 1)) w')
  unfolding start_stream send_command medium_of new_handle zero_handle
  closedown-start_stream config h w w' e =
      let z = closedown-zero h w e in
      (
        refl,
        ap (λ (h : Handle). h.serial_port) z,
        stream-wired (closedown P h w).1 w' (ap (λ h. medium_of (mode_of h)) z ∙ zero-wired),
      )

  -- fs_set_network_parameters sends over a wire only: on every other medium it returns -1 and leaves the
  -- world as it was.
  pub set_network_parameters-wired_only :
      (h : Handle) (ssid pw : List ℕ) (access_point_wanted : Bool) (w : P.World)
      → medium_of (mode_of h) ≢ wired
      → set_network_parameters P h ssid pw access_point_wanted w ≡ (negsuc 0, w)
  unfolding set_network_parameters send_command
  set_network_parameters-wired_only h ssid pw access_point_wanted w no_wire =
      by_medium (medium_of (mode_of h)) refl
    where
      text : ℕ → ℕ → List ℕ
      text s p = printed (2 * max_cmd_length) (textual s ssid ++ p ∷ (pw ++ b';' ∷ []))

      unsent :
          (text : List ℕ)
          → medium_of (mode_of h) ≡ no_medium
          → send_command P h text w ≡ (negsuc 0, w)
      unsent text e = rw (e, send_command) refl

      refused :
          medium_of (mode_of h) ≡ no_medium
          → (wanted : Bool) (s t : List ℕ)
          → (if wanted then send_command P h s w else send_command P h t w) ≡ (negsuc 0, w)
      refused e true s t = unsent s e
      refused e false s t = unsent t e

      by_medium :
          (m : Medium)
          → medium_of (mode_of h) ≡ m
          → set_network_parameters P h ssid pw access_point_wanted w ≡ (negsuc 0, w)
      by_medium wired e = absurd (no_wire e)
      by_medium networked e = rw (e, set_network_parameters) refl
      by_medium access_point e = rw (e, set_network_parameters) refl
      by_medium no_medium e =
          rw (e, set_network_parameters)
            (refused e access_point_wanted (text b'q' b'w') (text b'S' b'P'))

  asked-sent :
      (again : Handle → P.World → Outcome (Bool × Handle × P.World)) (h : Handle) (n : ℤ)
      (w : P.World)
      → is_pos n ≡ true
      → asked P again h (n, w)
        ≡ answered P again h (P.receive_serial h rx_size (pos 100000) (P.delay (pos 100) w))
  asked-sent again h n w e = rw (e, asked) refl

  -- Where the driver starts and the identification command can be sent, but the read of the answer
  -- fails, fs_serial_start reads past the end of its receive buffer, whatever is in the command queue:
  -- a negative value of the read, of an `ssize_t`, is stored as `size_t`, and nothing in the cleared
  -- buffer makes fs_segment_commands return before its end.
  pub serial_start-overread :
      (h h1 : Handle) (n : ℤ) (k : ℕ) (w w1 w2 w3 : P.World)
      → P.init_serial_driver (clear_name h) w ≡ (pos 0, h1, w1)
      → P.transmit_serial h1 serial_hello 100000 (P.delay (pos 10) w1) ≡ (n, w2)
      → is_pos n ≡ true
      → P.receive_serial h1 rx_size (pos 100000) (P.delay (pos 100) w2) ≡ (failed k, w3)
      → k < 2 ^ 63
      → serial_start P h w ≡ overread
  unfolding serial_start identify_serial
  serial_start-overread h h1 n k w w1 w2 w3 init sent some_sent failing small =
      ap (driver_started P) init
      ∙ ap (λ r. identified P (asked P (identify_serial P 9) h1 r)) sent
      ∙ ap (identified P) (asked-sent (identify_serial P 9) h1 n w2 some_sent)
      ∙ ap (λ r. identified P (answered P (identify_serial P 9) h1 r)) failing
      ∙ ap (identified P) (answered-failed P (identify_serial P 9) h1 k w3 small)

  -- Where fs_init_serial_driver succeeds and the identification command cannot be sent,
  -- fs_initialize_serial of a handle that is not running returns -9 without fs_shutdown_serial_driver,
  -- with the mode cleared, so that fs_closedown then returns -1 and shuts nothing down either.
  pub initialize_serial-unclosed :
      (h h1 : Handle) (context serial_mode : ℤ) (n : ℕ) (w w1 w2 : P.World)
      → is_running h ≡ false
      → P.init_serial_driver
          (clear_name (set_port context (set_mode serial_mode (configured P.default_config h))))
          w
        ≡ (pos 0, h1, w1)
      → P.transmit_serial h1 serial_hello 100000 (P.delay (pos 10) w1) ≡ (negsuc n, w2)
      → let h2 = set_mode uninitialized h1 in
        let w3 = P.delay (pos 100) w2 in
        (initialize_serial P h context serial_mode w ≡ back (negsuc 8, h2, w3))
        × (closedown P h2 w3 ≡ (negsuc 0, h2, w3))
  unfolding initialize_serial serial_start identify_serial closedown medium_of
  initialize_serial-unclosed h h1 context serial_mode n w w1 w2 idle init sent =
      let h0 = set_port context (set_mode serial_mode (configured P.default_config h)) in
      (
        ap
              (λ (b : Bool).
                let r : Outcome (ℤ × Handle × P.World) = elim b [
                  | true ↦ back (negsuc 10, h, w)
                  | false ↦ serial_started P (serial_start P h0 w)
                ] in
                r)
              idle
            ∙ ap (λ r. serial_started P (driver_started P r)) init
            ∙ ap (λ r. serial_started P (identified P (asked P (identify_serial P 9) h1 r))) sent,
        refl,
      )

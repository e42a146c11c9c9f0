-- ===== src/Link/Listening.antt =====
-- common/FS_Trifecta_Networked.c: fs_tcp_update_thread and fs_udp_update_thread, each by itself. A thread
-- gets a number of passes of its loop; a result `none` is a call that does not return within its fuel.
pub mod Datagrams
pub mod Commanding
use trifecta_sdk.Common.{
  ℕ, zero, suc, Bool, true, false, Option, none, some, List, [], ◌∷◌, if◌then◌else◌,
}
use trifecta_sdk.Common.Int.{ℤ, pos, negsuc, equals}
use trifecta_sdk.Device.{Device, RunStatus, idle, running, error}
use trifecta_sdk.Commands.{handle_received_commands}
use trifecta_sdk.Serial.{parse_packet}
use trifecta_sdk.Link.Wired.{rx_size, set_status}
use trifecta_sdk.Link.Updating.{Reader, status_of, source_of, receiver_of, put_receiver, plus}
use trifecta_sdk.Link.{Platform, Handle, Received, failed, got, mode_of}

-- `task_wait_ms` and `read_timeout_micros`, which a thread reads once.
pub record Timing : Type 0 where
  pub wait : ℤ
  pub timeout : ℤ

abbrev pub timing_of : Handle → Timing
timing_of h = record { wait = h.config.task_wait_ms; timeout = h.config.read_timeout_micros }

abbrev pub set_ping : ℤ → Handle → Handle
set_ping ping h = record h { ping = ping }

-- A pass of the TCP thread behind its read. A failed read changes nothing.
unfoldable pub tcp_received : ℤ → Handle → Received → Option Handle
tcp_received wait h (failed n) = some h
tcp_received wait h (got []) = some (set_ping (plus h.ping wait) h)
tcp_received wait h (got (c ∷ cs)) = elim (handle_received_commands h.device (c ∷ cs)) [
  | none ↦ none
  | some (code, device) ↦ some (set_ping (pos 0) (record h { device = device }))
]

-- A pass of the UDP thread behind its read.
unfoldable pub udp_received : List ℕ → Reader → Received → Option Reader
udp_received stack r (failed n) = some r
udp_received stack r (got []) = some r
udp_received stack r (got (c ∷ cs)) =
    elim (parse_packet stack (receiver_of r) (c ∷ cs) (source_of (mode_of r.handle))) [
      | none ↦ none
      | some (code, s) ↦
          let r' = put_receiver s r in some (record r' { handle = set_ping (pos 0) r'.handle })
    ]

module _ (P : Platform) (t : Timing) where
  -- Both reconnections, the second of which is tried where the first succeeds.
  unfoldable pub reconnect : Handle → P.World → Bool × Handle × P.World
  reconnect h w =
      let (tcp, h1, w1) = P.attempt_reconnect_network_tcp h w in
      if equals tcp 0
      then (let (udp, h2, w2) = P.attempt_reconnect_network_udp h1 w1 in (equals udp 0, h2, w2))
      else (false, h1, w1)

  -- The read of the TCP thread, and the wait behind it.
  unfoldable pub tcp_read : Handle → P.World → Option (Handle × P.World)
  tcp_read h w =
      let (received, w1) = P.receive_networked_tcp h rx_size t.timeout w in
      elim (tcp_received t.wait h received) [ none ↦ none | some h' ↦ some (h', P.delay t.wait w1) ]

  -- A pass of the TCP thread whose reconnection, where it needs one, came to this.
  abbrev pub reconnected : Bool × Handle × P.World → Option (Handle × P.World)
  reconnected (true, h, w) = tcp_read (set_status running h) w
  reconnected (false, h, w) = some (h, P.delay (pos 500) w)

  -- `fs_tcp_update_thread` behind its start, and whether it is over.
  unfoldable pub tcp_update_thread : ℕ → Handle → P.World → Option (Bool × Handle × P.World)
  unfolding reconnect tcp_read
  tcp_update_thread zero h w = some (false, h, w)
  tcp_update_thread (suc passes) h w =
      let next = λ (o : Option (Handle × P.World)).
        (let res : Option (Bool × Handle × P.World) = elim o [
          | none ↦ none
          | some (h', w') ↦ tcp_update_thread passes h' w'
        ] in
          res) in
      elim h.device.params.status [
        | idle ↦ some (true, h, w)
        | error ↦ next (reconnected (reconnect h w))
        | running ↦ next (tcp_read h w)
      ]

  -- A pass of the UDP thread, and what follows its read.
  abbrev pub udp_waited : List ℕ → Reader → Received × P.World → Option (Reader × P.World)
  udp_waited stack r (received, w) = elim (udp_received stack r received) [
    | none ↦ none
    | some r' ↦ some (r', P.delay t.wait w)
  ]

  unfoldable pub udp_read : List ℕ → Reader → P.World → Option (Reader × P.World)
  udp_read stack r w = udp_waited stack r (P.receive_networked_udp r.handle rx_size t.timeout w)

  -- `fs_udp_update_thread` behind its start, and whether it is over.
  unfoldable pub udp_update_thread :
      ℕ → List ℕ → Reader → P.World → Option (Bool × Reader × P.World)
  unfolding udp_read
  udp_update_thread zero stack r w = some (false, r, w)
  udp_update_thread (suc passes) stack r w =
      let next = λ (o : Option (Reader × P.World)).
        (let res : Option (Bool × Reader × P.World) = elim o [
          | none ↦ none
          | some (r', w') ↦ udp_update_thread passes stack r' w'
        ] in
          res) in
      elim (status_of r) [ idle ↦ some (true, r, w) | _ ↦ next (udp_read stack r w) ]

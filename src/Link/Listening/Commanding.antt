-- ===== src/Link/Listening/Commanding.antt =====
-- Commands that come over TCP.
use trifecta_sdk.Common.{
  ℕ, zero, suc, ◌≡◌, refl, sym, ap, ◌∙◌, Bool, true, false, Option, none, some, [], ◌∷◌, Bool-cases,
  inl, inr,
}
use mathlib.Core.Path.{subst}
use trifecta_sdk.Common.Int.{ℤ, pos, equals}
use trifecta_sdk.Device.{RunStatus, idle, running, error}
use trifecta_sdk.Commands.Invariant.{IsQueue, handle_received_commands-IsQueue}
use trifecta_sdk.Link.Wired.{rx_size, set_status}
use trifecta_sdk.Link.Updating.{plus}
use trifecta_sdk.Link.Listening.{
  Timing, set_ping, tcp_received, reconnect, tcp_read, reconnected, tcp_update_thread,
}
use trifecta_sdk.Link.{Platform, Handle, Received, failed, got}

-- A handle whose command queue is a valid ring.
abbrev pub Commandable : Handle → Type 0
Commandable h = IsQueue h.device.command_queue

tcp_received-Commandable :
    (wait : ℤ) (h : Handle) (received : Received)
    → Commandable h
    → (h' : Handle) × (tcp_received wait h received ≡ some h') × Commandable h'
unfolding tcp_received
tcp_received-Commandable wait h (failed n) queue = (h, refl, queue)
tcp_received-Commandable wait h (got []) queue = (set_ping (plus h.ping wait) h, refl, queue)
tcp_received-Commandable wait h (got (c ∷ cs)) queue =
    let ((code, device), e, queue', bytes) =
      handle_received_commands-IsQueue h.device (c ∷ cs) queue in
    (set_ping (pos 0) (record h { device = device }), rw (e, tcp_received) refl, queue')

-- Reconnecting does not touch the command queue.
pub record KeepsQueue (P : Platform) : Type 0 where
  pub tcp :
      (h : Handle) (w : P.World)
      → (P.attempt_reconnect_network_tcp h w).1.device.command_queue ≡ h.device.command_queue
  pub udp :
      (h : Handle) (w : P.World)
      → (P.attempt_reconnect_network_udp h w).1.device.command_queue ≡ h.device.command_queue

module _ (P : Platform) (laws : KeepsQueue P) (t : Timing) where
  abbrev Passed : Option (Handle × P.World) → Type 0
  Passed o = (h : Handle) × (w : P.World) × (o ≡ some (h, w)) × Commandable h

  tcp_read-Passed : (h : Handle) (w : P.World) → Commandable h → Passed (tcp_read P t h w)
  unfolding tcp_read
  tcp_read-Passed h w queue =
      let r = P.receive_networked_tcp h rx_size t.timeout w in
      let (h', e, queue') = tcp_received-Commandable t.wait h r.0 queue in
      (h', P.delay t.wait r.1, rw (e, tcp_read) refl, queue')

  reconnect-Commandable :
      (h : Handle) (w : P.World) → Commandable h → Commandable (reconnect P t h w).1
  unfolding reconnect
  reconnect-Commandable h w queue =
      let r = P.attempt_reconnect_network_tcp h w in
      elim (Bool-cases (equals r.0 0)) [
        | inl good ↦
            rw (good, reconnect) (subst IsQueue (sym (laws.udp r.1 r.2 ∙ laws.tcp h w)) queue)
        | inr bad ↦ rw (bad, reconnect) (subst IsQueue (sym (laws.tcp h w)) queue)
      ]

  reconnected-Passed :
      (b : Bool) (h : Handle) (w : P.World) → Commandable h → Passed (reconnected P t (b, h, w))
  reconnected-Passed true h w queue = tcp_read-Passed (set_status running h) w queue
  reconnected-Passed false h w queue = (h, P.delay (pos 500) w, refl, queue)

  abbrev pub Ran : Option (Bool × Handle × P.World) → Type 0
  Ran o = (over : Bool) × (h : Handle) × (w : P.World) × (o ≡ some (over, h, w)) × Commandable h

  -- The passes behind the first.
  abbrev rest : ℕ → Option (Handle × P.World) → Option (Bool × Handle × P.World)
  rest passes none = none
  rest passes (some (h, w)) = tcp_update_thread P t passes h w

  rest-elim :
      (passes : ℕ) (o : Option (Handle × P.World))
      → (elim o [ none ↦ none | some (h', w') ↦ tcp_update_thread P t passes h' w' ])
        ≡ rest passes o
  rest-elim passes none = refl
  rest-elim passes (some (h', w')) = refl

  rest-Ran :
      (passes : ℕ) (o : Option (Handle × P.World))
      → ((h : Handle) (w : P.World) → Commandable h → Ran (tcp_update_thread P t passes h w))
      → Passed o
      → Ran (rest passes o)
  rest-Ran passes o ran (h', w', e, queue') =
      let (over, h'', w'', e', queue'') = ran h' w' queue' in
      (over, h'', w'', ap (rest passes) e ∙ e', queue'')

  pass-Ran :
      (passes : ℕ) (h : Handle) (w : P.World) (status : RunStatus)
      → ((h : Handle) (w : P.World) → Commandable h → Ran (tcp_update_thread P t passes h w))
      → Commandable h
      → h.device.params.status ≡ status
      → Ran (tcp_update_thread P t (suc passes) h w)
  unfolding tcp_update_thread
  pass-Ran passes h w idle ran queue e = rw (e, tcp_update_thread) (true, h, w, refl, queue)
  pass-Ran passes h w running ran queue e =
      rw (e, tcp_update_thread, rest-elim passes (tcp_read P t h w))
        (rest-Ran passes (tcp_read P t h w) ran (tcp_read-Passed h w queue))
  pass-Ran passes h w error ran queue e =
      let r = reconnect P t h w in
      rw (e, tcp_update_thread, rest-elim passes (reconnected P t r))
        (rest-Ran passes (reconnected P t r) ran
          (reconnected-Passed r.0 r.1 r.2 (reconnect-Commandable h w queue)))

  -- fs_tcp_update_thread never gets stuck on what it receives: any number of its passes returns, with a
  -- valid command queue if that was valid before, whatever arrives over TCP and whether or not reads
  -- and reconnections succeed. The platform's reconnections leave the command queue alone.
  pub tcp_update_thread-Ran :
      (passes : ℕ) (h : Handle) (w : P.World)
      → Commandable h
      → Ran (tcp_update_thread P t passes h w)
  unfolding tcp_update_thread
  tcp_update_thread-Ran zero h w queue = (false, h, w, refl, queue)
  tcp_update_thread-Ran (suc passes) h w queue =
      pass-Ran passes h w h.device.params.status (tcp_update_thread-Ran passes) queue refl

-- ===== src/Link/Updating.antt =====
-- common/FS_Trifecta_Serial.c: fs_serial_update_thread, beside a thread that calls fs_serial_exit. Log
-- lines are left out.
pub mod Runs
use trifecta_sdk.Common.{
  ℕ, zero, suc, ◌+◌, ◌-◌, ◌≡◌, Bool, true, false, Option, none, some, List, [], ◌∷◌, ltb, ◌==◌,
  if◌then◌else◌,
}
use trifecta_sdk.Common.Int.{ℤ, pos, negsuc}
use trifecta_sdk.Device.{RunStatus, idle, running, error}
use trifecta_sdk.Serial.{
  Receiver, Source, uninitialized, usb_cdc, uart, tcp_udp, tcp_udp_ap, can, i2c, espn, spi, ble,
  parse_packet,
}
use trifecta_sdk.Link.Wired.{set_status}
use trifecta_sdk.Link.{Handle, Received, failed, got, mode_of}

-- Where the thread stands: at the loop's test, in fs_attempt_reconnect_serial, at a read, at the test of
-- the inner loop, behind that loop, at the wait, and behind the outer loop.
pub data Point : Type 0 where
  testing reconnecting receiving looping counting waiting ended : Point

-- The handle, which the threads share, the receiver's static buffer, what was read last, and the place
-- of the thread.
pub record Reader : Type 0 where
  pub handle : Handle
  pub decode_buffer : List ℕ
  pub last_received : Received
  pub at : Point

abbrev pub status_of : Reader → RunStatus
status_of r = r.handle.device.params.status

-- The value of `communication_mode` as fs_device_parse_packet takes it.
unfoldable pub source_of : ℤ → Source
source_of (negsuc n) = uninitialized
source_of (pos n) =
    if n == 0
    then usb_cdc
    else if n == 1
    then uart
    else if n == 2
    then tcp_udp
    else if n == 4
    then tcp_udp_ap
    else if n == 8
    then can
    else if n == 16
    then i2c
    else if n == 32
    then espn
    else if n == 64
    then spi
    else if n == 128
    then ble
    else uninitialized

-- The sum of two values of `int`, where it is one; C leaves the others open.
unfoldable pub plus : ℤ → ℤ → ℤ
plus (pos a) (pos b) = pos (a + b)
plus (negsuc a) (negsuc b) = negsuc (suc (a + b))
plus (pos a) (negsuc b) = if ltb b a then pos (a - suc b) else negsuc (b - a)
plus (negsuc a) (pos b) = if ltb a b then pos (b - suc a) else negsuc (a - b)

-- The start of the thread, which takes the device for running.
abbrev pub enter : Handle → List ℕ → Reader
enter h decode_buffer = record {
  handle = set_status running h;
  decode_buffer = decode_buffer;
  last_received = got [];
  at = testing;
}

abbrev pub move : Point → Reader → Reader
move point r = record r { at = point }

abbrev pub mark : RunStatus → Reader → Reader
mark status r = record r { handle = set_status status r.handle }

-- What an empty read does to `ping`.
abbrev pub count_ping : ℤ → Reader → Reader
count_ping delay r = record r { handle = record r.handle { ping = plus r.handle.ping delay } }

-- The last branch behind the inner loop.
abbrev pub reset_ping : Reader → Reader
reset_ping r = record r { handle = record r.handle { ping = pos 0 } }

abbrev pub hear : Received → Reader → Reader
hear received r = record r { last_received = received }

-- `last_received_serial > 0`.
unfoldable pub is_received : Received → Bool
is_received (failed n) = false
is_received (got []) = false
is_received (got (c ∷ cs)) = true

abbrev pub receiver_of : Reader → Receiver
receiver_of r = record { decode_buffer = r.decode_buffer; dev = r.handle.device }

abbrev pub put_receiver : Receiver → Reader → Reader
put_receiver s r = record r {
  handle = record r.handle { device = s.dev };
  decode_buffer = s.decode_buffer;
}

-- The steps of the thread, with the values of fs_attempt_reconnect_serial and fs_receive_serial open,
-- and the step of fs_serial_exit. Reconnecting and reading change only what the handle leaves out. `delay` is the value of `task_wait_ms` when the thread started, and
-- `stack` what fs_device_parse_packet finds on its stack.
pub data Step (delay : ℤ) (stack : List ℕ) : Reader → Reader → Type 0 where
  leaves : (r : Reader) → r.at ≡ testing → status_of r ≡ idle → Step delay stack r (move ended r)
  goes_on :
      (r : Reader) → r.at ≡ testing → status_of r ≡ running → Step delay stack r (move receiving r)
  tries :
      (r : Reader) → r.at ≡ testing → status_of r ≡ error → Step delay stack r (move reconnecting r)
  reconnects :
      (r : Reader) → r.at ≡ reconnecting → Step delay stack r (move receiving (mark running r))
  retries : (r : Reader) → r.at ≡ reconnecting → Step delay stack r (move testing r)
  reads :
      (r : Reader) (received : Received)
      → r.at ≡ receiving
      → Step delay stack r (move looping (hear received r))
  parses :
      (r : Reader) (c : ℕ) (cs : List ℕ) (code : ℤ) (s : Receiver)
      → r.at ≡ looping
      → r.last_received ≡ got (c ∷ cs)
      → parse_packet stack (receiver_of r) (c ∷ cs) (source_of (mode_of r.handle)) ≡ some (code, s)
      → Step delay stack r (move receiving (put_receiver s r))
  stops_reading :
      (r : Reader)
      → r.at ≡ looping
      → is_received r.last_received ≡ false
      → Step delay stack r (move counting r)
  counts_empty :
      (r : Reader)
      → r.at ≡ counting
      → r.last_received ≡ got []
      → Step delay stack r (move waiting (count_ping delay r))
  counts_failed :
      (r : Reader) (n : ℕ)
      → r.at ≡ counting
      → r.last_received ≡ failed n
      → Step delay stack r (move waiting (mark error r))
  counts_bytes :
      (r : Reader) (c : ℕ) (cs : List ℕ)
      → r.at ≡ counting
      → r.last_received ≡ got (c ∷ cs)
      → Step delay stack r (move waiting (reset_ping r))
  waits : (r : Reader) → r.at ≡ waiting → Step delay stack r (move testing r)
  stops : (r : Reader) → Step delay stack r (mark idle r)

pub data Reaches (delay : ℤ) (stack : List ℕ) (r : Reader) : Reader → Type 0 where
  here : Reaches delay stack r r
  next : {s t : Reader} → Reaches delay stack r s → Step delay stack s t → Reaches delay stack r t

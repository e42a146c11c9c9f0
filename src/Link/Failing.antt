-- ===== src/Link/Failing.antt =====
-- A read that fails in the loop of fs_serial_start.
use trifecta_sdk.Common.{
  ℕ, zero, suc, ◌<◌, ◌≡◌, refl, ap, Bool, true, List, replicate, length, ltb, arith, ◌-◌, ◌^◌,
  length-replicate,
}
use trifecta_sdk.Common.Int.{pos}
use trifecta_sdk.RingBuffer.{Ring}
use trifecta_sdk.Device.{Device}
use trifecta_sdk.Commands.{segment_byte, segment_bytes, segment_commands, start, is_break}
use trifecta_sdk.Link.Wired.{rx_size, rx_buffer, rx_length, read_commands, told, answered}
use trifecta_sdk.Link.{Platform, Handle, failed, Outcome, overread}

-- A NUL leaves a segmenter that waits as it is, so no command and no error comes of a buffer of them.
segment_bytes-zeros :
    (n : ℕ) (queue : Ring (List ℕ)) → (segment_bytes (replicate n 0) (start queue)).0 ≡ pos 0
unfolding segment_bytes segment_byte is_break
segment_bytes-zeros zero queue = refl
segment_bytes-zeros (suc n) queue = segment_bytes-zeros n queue

segment_commands-zeros :
    (n : ℕ) (queue : Ring (List ℕ)) → (segment_commands queue (replicate n 0)).0 ≡ pos 0
unfolding segment_commands
segment_commands-zeros n queue = segment_bytes-zeros n queue

read_commands-failed :
    (dev : Device) (k : ℕ)
    → k < 2 ^ 63
    → read_commands dev (rx_buffer (failed k)) (rx_length (failed k)) ≡ overread
unfolding rx_buffer rx_length read_commands
read_commands-failed dev k small =
    let longer : ltb (length (replicate {A = ℕ} rx_size 0)) (2 ^ 64 - suc k) ≡ true =
      ground (arith, length-replicate {A = ℕ} rx_size 0) in
    rw (longer, segment_commands-zeros rx_size dev.command_queue, read_commands) refl

rx_length-failed : (k : ℕ) → k < 2 ^ 63 → ltb 0 (rx_length (failed k)) ≡ true
unfolding rx_length
rx_length-failed k small = ground arith

module _ (P : Platform) where
  pub answered-failed :
      (again : Handle → P.World → Outcome (Bool × Handle × P.World)) (h : Handle) (k : ℕ)
      (w : P.World)
      → k < 2 ^ 63
      → answered P again h (failed k, w) ≡ overread
  answered-failed again h k w small =
      rw (rx_length-failed k small, answered)
        (ap (told P again h w) (read_commands-failed h.device k small))

-- ===== src/Commands/Handling.antt =====
-- What fs_handle_received_commands makes of a buffer.
use trifecta_sdk.Common.{
  ℕ, zero, suc, ◌+◌, ◌≤◌, ◌<◌, ◌≡◌, refl, sym, ap, true, Option, some, List, [], ◌∷◌, ◌++◌, arith,
  length, length-append,
}
use mathlib.Core.Path.{subst}
use trifecta_sdk.Common.Int.{ℤ, pos, negsuc}
use trifecta_sdk.RingBuffer.Queue
use trifecta_sdk.RingBuffer.Refine.{Holds}
use trifecta_sdk.RingBuffer.Operations.{pop_refines}
use trifecta_sdk.RingBuffer.{Ring, pop}
use trifecta_sdk.Device.{Device, max_cmd_queue_length, max_cmd_length}
use trifecta_sdk.Commands.Payload.{payloads, format, IsPlain, AllPlain}
use trifecta_sdk.Commands.Segmenting.{Queued, segment_commands-format, segment_commands-full}
use trifecta_sdk.Commands.{
  Info, handle_command, handle_queue, handle_fuel, handle_received_commands, segment_commands,
  no_payload,
}

-- The commands obeyed one after another.
abbrev pub obey : List (List ℕ) → Info → Info
obey [] info = info
obey (payload ∷ q) info = obey q (handle_command payload info)

-- The loop came to its end with an empty queue and this outcome.
pub record Emptied (info : Info) (r : Option (Ring (List ℕ) × Info)) : Type 0 where
  pub queue : Ring (List ℕ)
  pub result : r ≡ some (queue, info)
  pub empty : Holds max_cmd_queue_length queue []

handle_queue-empty :
    (fuel : ℕ) (queue : Ring (List ℕ)) (info : Info)
    → Holds max_cmd_queue_length queue []
    → Emptied info (handle_queue (suc fuel) queue info)
unfolding handle_queue Queue.pop
handle_queue-empty fuel queue info h =
    let (found, cmd, h') = pop_refines [] no_payload h in
    record {
      queue = (pop max_cmd_queue_length queue no_payload).2;
      result = rw found refl;
      empty = h';
    }

handle_queue-cons :
    (fuel : ℕ) (queue : Ring (List ℕ)) (info : Info) (payload : List ℕ)
    → (pop max_cmd_queue_length queue no_payload).0 ≡ true
    → (pop max_cmd_queue_length queue no_payload).1 ≡ payload
    → handle_queue (suc fuel) queue info
      ≡ handle_queue fuel
          (pop max_cmd_queue_length queue no_payload).2
          (handle_command payload info)
unfolding handle_queue
handle_queue-cons fuel queue info payload found cmd = rw (found, cmd) refl

-- The loop takes every command out and obeys it; one round more than there are commands is enough.
pub handle_queue-Emptied :
    (q : List (List ℕ)) (fuel : ℕ) (queue : Ring (List ℕ)) (info : Info)
    → Holds max_cmd_queue_length queue q
    → length q < fuel
    → Emptied (obey q info) (handle_queue fuel queue info)
unfolding Queue.pop
handle_queue-Emptied q zero queue info h lt = absurd (omega arith)
handle_queue-Emptied [] (suc fuel) queue info h lt = handle_queue-empty fuel queue info h
handle_queue-Emptied (payload ∷ q) (suc fuel) queue info h lt =
    let (found, cmd, h') = pop_refines (payload ∷ q) no_payload h in
    subst (Emptied (obey (payload ∷ q) info))
      (sym (handle_queue-cons fuel queue info payload found cmd))
      (handle_queue-Emptied q fuel (pop max_cmd_queue_length queue no_payload).2
        (handle_command payload info) h' (omega arith))

-- A call that returned 0, obeyed these commands, and left the rest of the device alone.
pub record Obeyed (dev : Device) (q : List (List ℕ)) (r : Option (ℤ × Device)) : Type 0 where
  pub queue : Ring (List ℕ)
  pub empty : Holds max_cmd_queue_length queue []
  pub result :
      let info = obey q (record { descriptor = dev.descriptor; params = dev.params }) in
      r
      ≡ some (
        pos 0,
        record dev { command_queue = queue; descriptor = info.descriptor; params = info.params },
      )

handled :
    (dev : Device) (cmd_buf : List ℕ) (q : List (List ℕ))
    → Queued q (segment_commands dev.command_queue cmd_buf)
    → length q ≤ max_cmd_queue_length
    → Obeyed dev q (handle_received_commands dev cmd_buf)
unfolding handle_received_commands
handled dev cmd_buf q (ok, h) few =
    let done =
      handle_queue-Emptied q handle_fuel (segment_commands dev.command_queue cmd_buf).1
        (record { descriptor = dev.descriptor; params = dev.params }) h (omega arith) in
    record {
      queue = done.queue;
      empty = done.empty;
      result = rw (ok, done.result, handle_received_commands) refl;
    }

length-payloads : (texts : List (List ℕ)) → length (payloads texts) ≡ length texts
length-payloads [] = refl
length-payloads (text ∷ texts) = ap suc (length-payloads texts)

-- fs_handle_received_commands obeys the commands that were queued and then those of the buffer, in
-- order, returns 0 and leaves the queue empty: for commands without a terminator or a line break,
-- shorter than FS_MAX_CMD_LENGTH, each followed by ';', where the queue has room for all of them.
pub handle_received_commands-format :
    (dev : Device) (texts q : List (List ℕ))
    → AllPlain texts
    → Holds max_cmd_queue_length dev.command_queue q
    → length q + length texts ≤ max_cmd_queue_length
    → Obeyed dev (q ++ payloads texts) (handle_received_commands dev (format texts))
handle_received_commands-format dev texts q plain h room =
    handled dev (format texts) (q ++ payloads texts)
      (segment_commands-format texts dev.command_queue q plain h room)
      (omega (arith, length-append q (payloads texts), length-payloads texts))

-- A full command queue is not emptied by more commands: while 16 commands are queued,
-- fs_handle_received_commands of a buffer that starts with a whole command, shorter than
-- FS_MAX_CMD_LENGTH and without a line break or a NUL, returns -1 and changes nothing.
pub handle_received_commands-full :
    (dev : Device) (text rest : List ℕ) (q : List (List ℕ))
    → IsPlain text
    → length text < max_cmd_length
    → Holds max_cmd_queue_length dev.command_queue q
    → length q ≡ max_cmd_queue_length
    → handle_received_commands dev (text ++ b';' ∷ rest) ≡ some (negsuc 0, dev)
unfolding handle_received_commands
handle_received_commands-full dev text rest q plain fits h full =
    let refused = segment_commands-full text rest dev.command_queue plain fits h full in
    rw (ap (λ r. r.0) refused, handle_received_commands)
      (ap (λ r. some (negsuc 0, record dev { command_queue = r.1 })) refused)

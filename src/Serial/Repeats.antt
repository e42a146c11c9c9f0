-- ===== src/Serial/Repeats.antt =====
-- fs_device_process_packets_serial on a buffer of commands: how often each is obeyed.
use trifecta_sdk.Common.{
  ℕ, zero, suc, ◌+◌, ◌≤◌, ◌<◌, ◌≡◌, refl, sym, ap, ◌∙◌, inl, inr, Option, some, List, [], ◌∷◌, ◌++◌,
  arith, drop, length, length-append, append-snoc, length-snoc, drop-append_length,
}
use mathlib.Core.Path.{subst}
use trifecta_sdk.Common.Int.{ℤ, pos}
use trifecta_sdk.RingBuffer.{Ring}
use trifecta_sdk.RingBuffer.Refine.{Holds}
use trifecta_sdk.RingBuffer.Bytes.{max_data_length, cb_push}
use trifecta_sdk.RingBuffer.Bytes.Laws.{cb_pop-Holds}
use trifecta_sdk.Device.{Device, max_cmd_queue_length}
use trifecta_sdk.Delimiters.Frame.{IsBody}
use trifecta_sdk.Delimiters.Commands.{OnlyTerminators, terminator_at, scan_delimiters-commands}
use trifecta_sdk.Commands.Payload.{payloads, format, AllPlain}
use trifecta_sdk.Commands.Handling.{obey, handle_received_commands-format}
use trifecta_sdk.Commands.{Info}
use trifecta_sdk.Serial.Rounds.{serial_round-empty, serial_round-dispatch, cb_push-frame}
use trifecta_sdk.Serial.{
  Receiver, handled, frame, drop_bytes, command_segment, dispatch, serial_round, serial_loop,
  serial_fuel, process_packets_serial,
}

-- The texts have no delimiter in them.
abbrev pub AllBodies : List (List ℕ) → Type 0
AllBodies [] = Unit
AllBodies (text ∷ texts) = IsBody text × AllBodies texts

-- The commands of the buffer, then those of the buffer without the first, and so on.
abbrev pub repeated : List (List ℕ) → List (List ℕ)
repeated [] = []
repeated (text ∷ texts) = payloads (text ∷ texts) ++ repeated texts

append-OnlyTerminators :
    (body rest : List ℕ) → IsBody body → OnlyTerminators rest → OnlyTerminators (body ++ rest)
append-OnlyTerminators [] rest h only = only
append-OnlyTerminators (c ∷ cs) rest (hc, h) only = (inl hc, append-OnlyTerminators cs rest h only)

format-OnlyTerminators : (texts : List (List ℕ)) → AllBodies texts → OnlyTerminators (format texts)
format-OnlyTerminators [] h = tt
format-OnlyTerminators (text ∷ texts) (ht, h) =
    append-OnlyTerminators text (b';' ∷ format texts) ht (inr refl, format-OnlyTerminators texts h)

obey-append : (xs ys : List (List ℕ)) (info : Info) → obey (xs ++ ys) info ≡ obey ys (obey xs info)
obey-append [] ys info = refl
obey-append (x ∷ xs) ys info = obey-append xs ys _

-- What commands can change of a device.
abbrev pub info_of : Device → Info
info_of dev = record { descriptor = dev.descriptor; params = dev.params }

-- The call returned 0 with an empty byte buffer and an empty command queue, having obeyed these
-- commands, and the packet queue is as it was.
pub record Obeys (r : Receiver) (q : List (List ℕ)) (o : Option (ℤ × Receiver)) : Type 0 where
  pub after : Receiver
  pub returns : o ≡ some (pos 0, after)
  pub emptied : Holds max_data_length after.dev.data_buffer []
  pub commands : Holds max_cmd_queue_length after.dev.command_queue []
  pub obeyed : info_of after.dev ≡ obey q (info_of r.dev)
  pub packets : after.dev.packet_buf_queue ≡ r.dev.packet_buf_queue

drop-command : (text rest : List ℕ) → drop (length text + 1) (text ++ b';' ∷ rest) ≡ rest
drop-command text rest =
    ap (λ k. drop k (text ++ b';' ∷ rest)) (length-snoc text b';')
    ∙ ap (drop (length (text ++ b';' ∷ []))) (append-snoc text rest b';')
    ∙ drop-append_length (text ++ b';' ∷ []) rest

dispatch-command :
    (stack temp : List ℕ) (k : ℕ) (r : Receiver)
    → dispatch stack temp (terminator_at k) r ≡ command_segment temp k r
unfolding dispatch frame
dispatch-command stack temp k r = refl

-- The receiver when it has obeyed these commands and left this command queue.
abbrev obeying : Receiver → List (List ℕ) → Ring (List ℕ) → Receiver
obeying r q queue = record r {
  dev = record r.dev {
    command_queue = queue;
    descriptor = (obey q (info_of r.dev)).descriptor;
    params = (obey q (info_of r.dev)).params;
  };
}

-- A round obeys every command of the buffer and takes out the first.
record Stepped (stack : List ℕ) (r : Receiver) (text : List ℕ) (texts : List (List ℕ))
    : Type 0 where
  next : Receiver
  round : serial_round stack r ≡ some (handled next)
  held : Holds max_data_length next.dev.data_buffer (format texts)
  commands : Holds max_cmd_queue_length next.dev.command_queue []
  info : info_of next.dev ≡ obey (payloads (text ∷ texts)) (info_of r.dev)
  packets : next.dev.packet_buf_queue ≡ r.dev.packet_buf_queue

serial_round-Stepped :
    (text : List ℕ) (texts : List (List ℕ)) (stack : List ℕ) (r : Receiver)
    → AllPlain (text ∷ texts)
    → AllBodies (text ∷ texts)
    → Holds max_data_length r.dev.data_buffer (format (text ∷ texts))
    → Holds max_cmd_queue_length r.dev.command_queue []
    → length (text ∷ texts) ≤ max_cmd_queue_length
    → Stepped stack r text texts
unfolding command_segment
serial_round-Stepped text texts stack r plain (hb, bodies) h hc few =
    let done = handle_received_commands-format r.dev (text ∷ texts) [] plain hc (omega arith) in
    let obeyed = obeying r (payloads (text ∷ texts)) done.queue in
    let handles : command_segment q (length text) r
        ≡ some (handled (drop_bytes (length text + 1) obeyed)) =
      rw (done.result, command_segment) refl in
    record {
      next = drop_bytes (length text + 1) obeyed;
      round =
          serial_round-dispatch stack r q h
            (omega (arith, length-append text (b';' ∷ format texts)))
          ∙ ap (λ i. dispatch stack q i r)
              (scan_delimiters-commands text (format texts) hb
                (format-OnlyTerminators texts bodies))
          ∙ dispatch-command stack q (length text) r
          ∙ handles;
      held =
          subst (Holds max_data_length (drop_bytes (length text + 1) obeyed).dev.data_buffer)
            (drop-command text (format texts))
            (cb_pop-Holds r.dev.data_buffer q (length text + 1) h).1;
      commands = done.empty;
      info = refl;
      packets = refl;
    }
  where
    q : List ℕ
    q = format (text ∷ texts)

serial_loop-commands :
    (texts : List (List ℕ)) (fuel : ℕ) (stack : List ℕ) (r : Receiver)
    → AllPlain texts
    → AllBodies texts
    → Holds max_data_length r.dev.data_buffer (format texts)
    → Holds max_cmd_queue_length r.dev.command_queue []
    → length texts ≤ max_cmd_queue_length
    → length texts < fuel
    → Obeys r (repeated texts) (serial_loop fuel stack r)
unfolding serial_loop
serial_loop-commands texts zero stack r plain bodies h hc few lt = absurd (omega arith)
serial_loop-commands [] (suc fuel) stack r plain bodies h hc few lt = record {
  after = r;
  returns = rw (serial_round-empty stack r h, serial_loop) refl;
  emptied = h;
  commands = hc;
  obeyed = refl;
  packets = refl;
}
serial_loop-commands (text ∷ texts) (suc fuel) stack r plain bodies h hc few lt =
    let step = serial_round-Stepped text texts stack r plain bodies h hc few in
    let rest =
      serial_loop-commands texts fuel stack step.next plain.1 bodies.1 step.held step.commands
        (omega arith) (omega arith) in
    record {
      after = rest.after;
      returns = rw (step.round, serial_loop) rest.returns;
      emptied = rest.emptied;
      commands = rest.commands;
      obeyed =
          rest.obeyed
          ∙ ap (obey (repeated texts)) step.info
          ∙ sym (obey-append (payloads (text ∷ texts)) (repeated texts) (info_of r.dev));
      packets = rest.packets ∙ step.packets;
    }

-- fs_device_process_packets_serial obeys the commands of a buffer once for every ';' up to their own:
-- each round obeys all that are left and takes out the first. For commands without delimiters or line
-- breaks, each shorter than FS_MAX_CMD_LENGTH, at most 16 of them, together at most FS_MAX_DATA_LENGTH
-- bytes, on an empty byte buffer and an empty command queue; the call returns 0, leaves both empty and
-- enqueues no packet.
pub process_packets_serial-commands :
    (texts : List (List ℕ)) (stack : List ℕ) (r : Receiver)
    → AllPlain texts
    → AllBodies texts
    → Holds max_data_length r.dev.data_buffer []
    → Holds max_cmd_queue_length r.dev.command_queue []
    → length texts ≤ max_cmd_queue_length
    → length (format texts) ≤ max_data_length
    → Obeys r (repeated texts) (process_packets_serial stack r (format texts))
unfolding process_packets_serial
process_packets_serial-commands texts stack r plain bodies h hc few fits =
    let pushed = record r {
      dev = record r.dev { data_buffer = cb_push r.dev.data_buffer (format texts) };
    } in
    let result =
      serial_loop-commands texts serial_fuel stack pushed plain bodies
        (cb_push-frame r.dev.data_buffer (format texts) h fits) hc few (omega arith) in
    record {
      after = result.after;
      returns = result.returns;
      emptied = result.emptied;
      commands = result.commands;
      obeyed = result.obeyed;
      packets = result.packets;
    }

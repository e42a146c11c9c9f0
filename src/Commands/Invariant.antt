-- ===== src/Commands/Invariant.antt =====
-- Whether fs_handle_received_commands returns, and the command queue behind it.
use trifecta_sdk.Common.{
  ℕ, zero, suc, ◌-◌, ◌≤◌, ◌≡◌, refl, inl, inr, true, false, Option, none, some, List, [], ◌∷◌,
  arith, ltb, ◌==◌, length, set, Bool-cases,
}
use trifecta_sdk.Common.Int.{ℤ, pos, negsuc}
use trifecta_sdk.RingBuffer.Refine.{Holds}
use trifecta_sdk.RingBuffer.Operations.{push_refines}
use trifecta_sdk.RingBuffer.{Ring, push}
use trifecta_sdk.Device.{Device, max_cmd_queue_length, max_cmd_length}
use trifecta_sdk.Commands.Handling.{obey, handle_queue-Emptied}
use trifecta_sdk.Commands.{
  State, waiting, reading, Segmenter, segment_byte, segment_bytes, start, segment_commands,
  is_break, Info, handle_fuel, handle_received_commands,
}

-- The ring is valid, and holds some payloads.
abbrev pub IsQueue : Ring (List ℕ) → Type 0
IsQueue queue = (q : List (List ℕ)) × Holds max_cmd_queue_length queue q

pushed-IsQueue :
    (queue : Ring (List ℕ)) (v : List ℕ)
    → IsQueue queue
    → IsQueue (push max_cmd_queue_length queue v).1
pushed-IsQueue queue v (q, h) = (_, (push_refines h v).1)

segment_byte-IsQueue :
    (c : ℕ) (s : Segmenter) → IsQueue s.queue → IsQueue (segment_byte c s).1.queue
unfolding segment_byte
segment_byte-IsQueue c s h = elim (Bool-cases (c == b';')) [
  | inl end ↦
      elim (Bool-cases (push max_cmd_queue_length s.queue (set s.payload s.input_pos 0)).0) [
        | inl pushed ↦ rw (end, pushed) (pushed-IsQueue s.queue _ h)
        | inr full ↦ rw (end, full) (pushed-IsQueue s.queue _ h)
      ]
  | inr more ↦ elim (Bool-cases (is_break c)) [
    | inl breaks ↦ broken more breaks s.state refl
    | inr plain ↦ elim (Bool-cases (ltb s.input_pos (max_cmd_length - 1))) [
      | inl room ↦ rw (more, plain, room) h
      | inr over ↦ rw (more, plain, over) h
    ]
  ]
]
  where
    broken :
        (c == b';') ≡ false
        → is_break c ≡ true
        → (st : State) → s.state ≡ st
        → IsQueue (segment_byte c s).1.queue
    broken more breaks waiting e = rw (more, breaks, e) h
    broken more breaks reading e = rw (more, breaks, e) h

segment_bytes-IsQueue :
    (input : List ℕ) (s : Segmenter) → IsQueue s.queue → IsQueue (segment_bytes input s).1.queue
unfolding segment_bytes
segment_bytes-IsQueue [] s h = h
segment_bytes-IsQueue (c ∷ input) s h =
    either (segment_byte c s).0 (segment_byte c s).1 (segment_byte-IsQueue c s h)
      (λ s' h'. segment_bytes-IsQueue input s' h')
  where
    either :
        (r : Option ℤ) (s' : Segmenter)
        → IsQueue s'.queue
        → ((s'' : Segmenter) → IsQueue s''.queue → IsQueue (segment_bytes input s'').1.queue)
        → IsQueue (
            let out : ℤ × Segmenter = elim r [ none ↦ segment_bytes input s' | some z ↦ (z, s') ] in
            out.1.queue)
    either none s' h' go = go s' h'
    either (some z) s' h' go = h'

segment_commands-IsQueue :
    (queue : Ring (List ℕ)) (input : List ℕ)
    → IsQueue queue
    → IsQueue (segment_commands queue input).1
unfolding segment_commands
segment_commands-IsQueue queue input h = segment_bytes-IsQueue input (start queue) h

-- The call returned with a valid command queue and the byte buffer as it was.
abbrev pub Handles : Device → Option (ℤ × Device) → Type 0
Handles dev o =
    (r : ℤ × Device) × (o ≡ some r)
    × IsQueue r.1.command_queue
    × (r.1.data_buffer ≡ dev.data_buffer)

-- fs_handle_received_commands returns on every buffer, leaves the command queue a valid ring, if that
-- was one before, and does not change the device's byte buffer.
pub handle_received_commands-IsQueue :
    (dev : Device) (cmd_buf : List ℕ)
    → IsQueue dev.command_queue
    → Handles dev (handle_received_commands dev cmd_buf)
unfolding handle_received_commands
handle_received_commands-IsQueue dev cmd_buf h =
    returned (segment_commands dev.command_queue cmd_buf).0 refl
  where
    queue : Ring (List ℕ)
    queue = (segment_commands dev.command_queue cmd_buf).1

    kept : IsQueue queue
    kept = segment_commands-IsQueue dev.command_queue cmd_buf h

    failed :
        (handle_received_commands dev cmd_buf
          ≡ some (negsuc 0, record dev { command_queue = queue }))
        → Handles dev (handle_received_commands dev cmd_buf)
    failed e = (_, e, kept, refl)

    returned :
        (result : ℤ)
        → (segment_commands dev.command_queue cmd_buf).0 ≡ result
        → Handles dev (handle_received_commands dev cmd_buf)
    returned (pos zero) e =
        let info : Info = record { descriptor = dev.descriptor; params = dev.params } in
        let few : length kept.0 ≤ max_cmd_queue_length =
          omega (arith, kept.1.as_long, kept.1.valid.fits) in
        let done = handle_queue-Emptied kept.0 handle_fuel queue info kept.1 (omega (arith, few)) in
        let info' = obey kept.0 info in
        let dev' : Device = record dev {
          command_queue = done.queue;
          descriptor = info'.descriptor;
          params = info'.params;
        } in
        ((pos 0, dev'), rw (e, done.result, handle_received_commands) refl, ([], done.empty), refl)
    returned (pos (suc n)) e = failed (rw (e, handle_received_commands) refl)
    returned (negsuc n) e = failed (rw (e, handle_received_commands) refl)

-- ===== src/Serial/Termination.antt =====
-- Whether fs_device_process_packets_serial returns.
use trifecta_sdk.Common.{
  ℕ, zero, suc, ◌-◌, ◌<◌, ◌≡◌, refl, ◌∙◌, inl, inr, Option, some, List, [], ◌∷◌, ◌++◌, arith, drop,
  length, length-drop,
}
use trifecta_sdk.Common.Int.{ℤ, pos, negsuc}
use trifecta_sdk.RingBuffer.KeepLast.{keep_last}
use trifecta_sdk.RingBuffer.Bytes.{max_data_length, cb_push}
use trifecta_sdk.RingBuffer.Bytes.Laws.{cb_push-Holds}
use trifecta_sdk.Delimiters.{scan_delimiters}
use trifecta_sdk.Serial.Rounds.{serial_round-empty, serial_round-dispatch}
use trifecta_sdk.Serial.{
  Receiver, dispatch, serial_round, serial_loop, serial_fuel, process_packets_serial,
}
use trifecta_sdk.Serial.Steps.{NoPad, NoPad-drop, Ready, dispatch-Steps}

-- The call returned, and the receiver is ready for the next one.
abbrev pub Returns : Option (ℤ × Receiver) → Type 0
Returns o = (v : ℤ × Receiver) × (o ≡ some v) × ((q : List ℕ) × Ready v.1 q)

serial_loop-Returns :
    (fuel : ℕ) (stack : List ℕ) (r : Receiver) (q : List ℕ)
    → Ready r q
    → NoPad q
    → length q < fuel
    → Returns (serial_loop fuel stack r)
unfolding serial_loop
serial_loop-Returns zero stack r q h plain lt = absurd (omega arith)
serial_loop-Returns (suc fuel) stack r [] h plain lt =
    rw (serial_round-empty stack r h.0, serial_loop) ((pos 0, r), refl, ([], h))
serial_loop-Returns (suc fuel) stack r (x ∷ q) h plain lt =
    elim (dispatch-Steps stack (x ∷ q) (x ∷ q) (scan_delimiters (x ∷ q)) r plain h) [
      | inl waits ↦ rw (seen ∙ waits, serial_loop) ((negsuc 0, r), refl, (x ∷ q, h))
      | inr (r', n, step, h') ↦
          rw (seen ∙ step, serial_loop)
            (serial_loop-Returns fuel stack r' (drop n q) h' (NoPad-drop n q plain.1)
              (omega (arith, length-drop n q)))
    ]
  where
    seen : serial_round stack r ≡ dispatch stack (x ∷ q) (scan_delimiters (x ∷ q)) r
    seen = serial_round-dispatch stack r (x ∷ q) h.0 (omega arith)

-- fs_device_process_packets_serial returns, with a valid byte buffer and command queue, if they were
-- valid before and neither the buffered bytes nor the new ones have a '=' among them.
pub process_packets_serial-Returns :
    (stack : List ℕ) (r : Receiver) (q rx : List ℕ)
    → Ready r q
    → NoPad (q ++ rx)
    → Returns (process_packets_serial stack r rx)
unfolding process_packets_serial keep_last
process_packets_serial-Returns stack r q rx (h, hc) plain =
    let held = cb_push-Holds rx r.dev.data_buffer q h in
    serial_loop-Returns serial_fuel stack
      (record r { dev = record r.dev { data_buffer = cb_push r.dev.data_buffer rx } })
      (keep_last max_data_length (q ++ rx)) (held, hc)
      (NoPad-drop (length (q ++ rx) - max_data_length) (q ++ rx) plain)
      (omega (arith, held.as_long, held.valid.fits))

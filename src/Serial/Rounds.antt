-- ===== src/Serial/Rounds.antt =====
-- Rounds of fs_device_process_packets_serial's loop on a buffer whose content is known.
use trifecta_sdk.Common.{
  ℕ, suc, ◌≤◌, ◌<◌, ◌≡◌, refl, ap, ◌∙◌, false, some, List, [], arith, ◌==◌, length, take_all,
  drop_all, if◌then◌else◌,
}
use mathlib.Core.Path.{subst}
use trifecta_sdk.Common.Int.{pos}
use trifecta_sdk.RingBuffer.Refine.{Holds}
use trifecta_sdk.RingBuffer.KeepLast.{keep_last_all}
use trifecta_sdk.RingBuffer.Bytes.{max_data_length, cb_push, cb_pop}
use trifecta_sdk.RingBuffer.Bytes.Laws.{cb_push-Holds, cb_peek_lem, cb_pop-Holds}
use trifecta_sdk.Delimiters.{scan_delimiters}
use trifecta_sdk.Serial.{Receiver, empty, handled, drop_bytes, dispatch, serial_round, serial_loop}

module _ (stack : List ℕ) (r : Receiver) where
  -- A round on an empty buffer ends the loop.
  pub serial_round-empty :
      Holds max_data_length r.dev.data_buffer [] → serial_round stack r ≡ some empty
  unfolding serial_round
  serial_round-empty h =
      ap
        (λ temp.
          if length temp == 0 then some empty else dispatch stack temp (scan_delimiters temp) r)
        (cb_peek_lem r.dev.data_buffer [] max_data_length h)

  -- Otherwise the round sees all of the buffer.
  pub serial_round-dispatch :
      (q : List ℕ)
      → Holds max_data_length r.dev.data_buffer q
      → 0 < length q
      → serial_round stack r ≡ dispatch stack q (scan_delimiters q) r
  unfolding serial_round
  serial_round-dispatch q h some_byte =
      let nonempty : (length q == 0) ≡ false = ground arith in
      ap
        (λ temp.
          if length temp == 0 then some empty else dispatch stack temp (scan_delimiters temp) r)
        (cb_peek_lem r.dev.data_buffer q max_data_length h
          ∙ take_all max_data_length q (omega (arith, h.as_long, h.valid.fits)))
      ∙ ap (λ b. if b then some empty else dispatch stack q (scan_delimiters q) r) nonempty

  -- One round that empties the buffer, and the loop ends with 0.
  pub serial_loop-once :
      (r' : Receiver) (fuel : ℕ)
      → serial_round stack r ≡ some (handled r')
      → serial_round stack r' ≡ some empty
      → serial_loop (suc (suc fuel)) stack r ≡ some (pos 0, r')
  unfolding serial_loop
  serial_loop-once r' fuel first second = rw (first, second, serial_loop) refl

-- The frame is in the buffer, which was empty before.
pub cb_push-frame :
    (rb : _) (q : List ℕ)
    → Holds max_data_length rb []
    → length q ≤ max_data_length
    → Holds max_data_length (cb_push rb q) q
cb_push-frame rb q h fits =
    subst (Holds max_data_length (cb_push rb q)) (keep_last_all max_data_length q fits)
      (cb_push-Holds q rb [] h)

pub drop_bytes-all :
    (r : Receiver) (q : List ℕ) (n : ℕ)
    → Holds max_data_length r.dev.data_buffer q
    → length q ≤ n
    → Holds max_data_length (drop_bytes n r).dev.data_buffer []
drop_bytes-all r q n h all =
    subst (Holds max_data_length (cb_pop r.dev.data_buffer n).1) (drop_all n q all)
      (cb_pop-Holds r.dev.data_buffer q n h).1

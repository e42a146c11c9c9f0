-- ===== src/Link/Updating/Runs.antt =====
-- What every run of the thread keeps, and the runs behind fs_serial_exit.
use trifecta_sdk.Common.{◌∷◌, ◌≢◌, sym, ◌∙◌, ℕ, zero, suc, ◌≡◌, refl, ap, false, List, []}
use trifecta_sdk.Common.Int.{ℤ}
use trifecta_sdk.Device.{idle, running, error}
use trifecta_sdk.Link.{Handle, failed, got}
use trifecta_sdk.Link.Updating.{
  testing, reconnecting, receiving, looping, counting, waiting, ended, Reader, status_of, plus,
  enter, move, mark, count_ping, hear, is_received, Step, leaves, goes_on, tries, reconnects,
  retries, reads, parses, stops_reading, counts_empty, counts_failed, counts_bytes, waits, stops,
  Reaches, here, next,
}

-- A number with another added this many times.
abbrev pub added : ℕ → ℤ → ℤ → ℤ
added zero delay n = n
added (suc k) delay n = plus (added k delay n) delay

module _ (delay : ℤ) (stack : List ℕ) where
  abbrev EndsIdle : Reader → Type 0
  EndsIdle r = r.at ≡ ended → status_of r ≡ idle

  Step-EndsIdle : {r s : Reader} → Step delay stack r s → EndsIdle r → EndsIdle s
  Step-EndsIdle (leaves r at is_idle) h = λ e. is_idle
  Step-EndsIdle (goes_on r at on) h = λ e. cc
  Step-EndsIdle (tries r at bad) h = λ e. cc
  Step-EndsIdle (reconnects r at) h = λ e. cc
  Step-EndsIdle (retries r at) h = λ e. cc
  Step-EndsIdle (reads r received at) h = λ e. cc
  Step-EndsIdle (parses r c cs code s at heard done) h = λ e. cc
  Step-EndsIdle (stops_reading r at over) h = λ e. cc
  Step-EndsIdle (counts_empty r at heard) h = λ e. cc
  Step-EndsIdle (counts_failed r n at heard) h = λ e. cc
  Step-EndsIdle (counts_bytes r c cs at heard) h = λ e. cc
  Step-EndsIdle (waits r at) h = λ e. cc
  Step-EndsIdle (stops r) h = λ e. refl

  -- The serial thread of a device is over only where the device's status is IDLE: whatever is read,
  -- whatever becomes of reconnecting, and whenever fs_serial_exit is called.
  pub Reaches-ended :
      (h : Handle) (decode_buffer : List ℕ) {r : Reader}
      → Reaches delay stack (enter h decode_buffer) r
      → r.at ≡ ended
      → status_of r ≡ idle
  Reaches-ended h decode_buffer here = λ e. cc
  Reaches-ended h decode_buffer (next run step) =
      Step-EndsIdle step (Reaches-ended h decode_buffer run)

  -- Behind the inner loop nothing is left that was read.
  abbrev IsDrained : Reader → Type 0
  IsDrained r = r.at ≡ counting → is_received r.last_received ≡ false

  Step-IsDrained : {r s : Reader} → Step delay stack r s → IsDrained r → IsDrained s
  Step-IsDrained (leaves r at is_idle) h = λ e. cc
  Step-IsDrained (goes_on r at on) h = λ e. cc
  Step-IsDrained (tries r at bad) h = λ e. cc
  Step-IsDrained (reconnects r at) h = λ e. cc
  Step-IsDrained (retries r at) h = λ e. cc
  Step-IsDrained (reads r received at) h = λ e. cc
  Step-IsDrained (parses r c cs code s at heard done) h = λ e. cc
  Step-IsDrained (stops_reading r at over) h = λ e. over
  Step-IsDrained (counts_empty r at heard) h = λ e. cc
  Step-IsDrained (counts_failed r n at heard) h = λ e. cc
  Step-IsDrained (counts_bytes r c cs at heard) h = λ e. cc
  Step-IsDrained (waits r at) h = λ e. cc
  Step-IsDrained (stops r) h = h

  Reaches-IsDrained :
      (h : Handle) (decode_buffer : List ℕ) {r : Reader}
      → Reaches delay stack (enter h decode_buffer) r
      → IsDrained r
  Reaches-IsDrained h decode_buffer here = λ e. cc
  Reaches-IsDrained h decode_buffer (next run step) =
      Step-IsDrained step (Reaches-IsDrained h decode_buffer run)

  abbrev Counted : ℤ → Reader → Type 0
  Counted n r = (k : ℕ) × (r.handle.ping ≡ added k delay n)

  received_bytes : (c : ℕ) (cs : List ℕ) → is_received (got (c ∷ cs)) ≢ false
  unfolding is_received
  received_bytes c cs e = cc

  Step-Counted :
      (n : ℤ) {r s : Reader} → Step delay stack r s → IsDrained r → Counted n r → Counted n s
  Step-Counted n (leaves r at is_idle) d h = h
  Step-Counted n (goes_on r at on) d h = h
  Step-Counted n (tries r at bad) d h = h
  Step-Counted n (reconnects r at) d h = h
  Step-Counted n (retries r at) d h = h
  Step-Counted n (reads r received at) d h = h
  Step-Counted n (parses r c cs code s at heard done) d h = h
  Step-Counted n (stops_reading r at over) d h = h
  Step-Counted n (counts_empty r at heard) d h = (suc h.0, ap (λ n. plus n delay) h.1)
  Step-Counted n (counts_failed r k at heard) d h = h
  Step-Counted n (counts_bytes r c cs at heard) d h =
      absurd (received_bytes c cs (sym (ap is_received heard) ∙ d at))
  Step-Counted n (waits r at) d h = h
  Step-Counted n (stops r) d h = h

  -- The serial thread never sets `ping` back to 0, however many bytes it reads, since its inner loop
  -- only ends at a read without bytes: in every run, with fs_serial_exit called at any time, `ping` is
  -- what it was at the start with `task_wait_ms` added some times.
  pub Reaches-ping :
      (h : Handle) (decode_buffer : List ℕ) {r : Reader}
      → Reaches delay stack (enter h decode_buffer) r
      → (k : ℕ) × (r.handle.ping ≡ added k delay h.ping)
  Reaches-ping h decode_buffer here = (0, refl)
  Reaches-ping h decode_buffer (next run step) =
      Step-Counted h.ping step (Reaches-IsDrained h decode_buffer run)
        (Reaches-ping h decode_buffer run)

  -- fs_serial_exit while the thread is at a read: there is a run in which nothing is read and the thread
  -- ends, and one in which the read fails, as that of a closed port does, and reconnecting succeeds, so
  -- that the status is RUNNING once more and the thread is at a read as before.
  pub stopped-Reaches :
      (r : Reader) (n : ℕ)
      → r.at ≡ receiving
      → Reaches delay stack
          (mark idle r)
          (move ended (count_ping delay (hear (got []) (mark idle r))))
        × Reaches delay stack (mark idle r) (move receiving (mark running (hear (failed n) r)))
  unfolding is_received
  stopped-Reaches r n at =
      let quiet = hear (got []) (mark idle r) in
      let broken = hear (failed n) (mark idle r) in
      (
        next
            (next
              (next
                (next (next here (reads (mark idle r) (got []) at))
                  (stops_reading (move looping quiet) refl refl))
                (counts_empty (move counting quiet) refl refl))
              (waits (move waiting (count_ping delay quiet)) refl))
            (leaves (move testing (count_ping delay quiet)) refl refl),
        next
            (next
              (next
                (next
                  (next (next here (reads (mark idle r) (failed n) at))
                    (stops_reading (move looping broken) refl refl))
                  (counts_failed (move counting broken) n refl refl))
                (waits (move waiting (mark error broken)) refl))
              (tries (move testing (mark error broken)) refl refl))
            (reconnects (move reconnecting (mark error broken)) refl),
      )

-- ===== src/Commands/Segmenting.antt =====
-- What fs_segment_commands puts in the queue.
use trifecta_sdk.Common.{
  ℕ, ◌+◌, ◌-◌, ◌≤◌, ◌<◌, ◌≡◌, refl, sym, ap, ◌∙◌, true, false, Option, none, some, List, [], ◌∷◌,
  ◌++◌, append-nil, arith, ◌==◌, length, set, lt→ltb, length-append, append-snoc, length-snoc,
}
use mathlib.Core.Path.{subst}
use trifecta_sdk.Common.Int.{ℤ, pos, negsuc}
use trifecta_sdk.RingBuffer.Refine.{Holds}
use trifecta_sdk.RingBuffer.Room.{push-room, push-full}
use trifecta_sdk.RingBuffer.{Ring, push}
use trifecta_sdk.Device.{max_cmd_queue_length, max_cmd_length}
use trifecta_sdk.Commands.Payload.{
  payload_of, payloads, format, IsPlain, AllPlain, set-payload_of, set-payload_of_end,
}
use trifecta_sdk.Commands.{
  State, waiting, reading, Segmenter, segment_byte, segment_bytes, start, segment_commands,
  is_break,
}

-- The segmenter when it has read `text`.
abbrev after : List ℕ → State → Ring (List ℕ) → Segmenter
after text state queue = record {
  payload = payload_of text;
  input_pos = length text;
  state = state;
  queue = queue;
}

abbrev state_after : List ℕ → State → State
state_after [] st = st
state_after (c ∷ cs) st = reading

segment_byte-plain :
    (c : ℕ) (pre : List ℕ) (st : State) (queue : Ring (List ℕ))
    → (c == b';') ≡ false
    → is_break c ≡ false
    → length pre + 1 < max_cmd_length
    → segment_byte c (after pre st queue) ≡ (none, after (pre ++ c ∷ []) reading queue)
unfolding segment_byte
segment_byte-plain c pre st queue no_end no_break room =
    rw (no_end, no_break, lt→ltb (length pre) (max_cmd_length - 1) (omega arith))
      (λ i. (
        none,
        record {
          payload = set-payload_of pre c (omega arith) i;
          input_pos = length-snoc pre c i;
          state = reading;
          queue = queue;
        },
      ))

segment_bytes-next :
    (c : ℕ) (rest : List ℕ) (s s' : Segmenter)
    → segment_byte c s ≡ (none, s')
    → segment_bytes (c ∷ rest) s ≡ segment_bytes rest s'
unfolding segment_bytes
segment_bytes-next c rest s s' e =
    ap (λ r. elim r.0 [ none ↦ segment_bytes rest r.1 | some z ↦ (z, r.1) ]) e

-- A plain text is read into the payload.
segment_bytes-plain :
    (cs pre rest : List ℕ) (st : State) (queue : Ring (List ℕ))
    → IsPlain cs
    → length pre + length cs < max_cmd_length
    → segment_bytes (cs ++ rest) (after pre st queue)
      ≡ segment_bytes rest (after (pre ++ cs) (state_after cs st) queue)
segment_bytes-plain [] pre rest st queue h room =
    ap (λ t. segment_bytes rest (after t st queue)) (sym (append-nil pre))
segment_bytes-plain (c ∷ cs) pre rest st queue ((no_end, no_break), h) room =
    segment_bytes-next c (cs ++ rest) _ _
      (segment_byte-plain c pre st queue no_end no_break (omega arith))
    ∙ segment_bytes-plain cs (pre ++ c ∷ []) rest reading queue h (omega (arith, length-snoc pre c))
    ∙ ap (λ t. segment_bytes rest (after t (state_after cs reading) queue))
        (sym (append-snoc pre cs c))
    ∙ ap (λ z. segment_bytes rest (after (pre ++ c ∷ cs) z queue)) (still cs)
  where
    still : (ds : List ℕ) → state_after ds reading ≡ reading
    still [] = refl
    still (d ∷ ds) = refl

segment_byte-end :
    (s : Segmenter)
    → (push max_cmd_queue_length s.queue (set s.payload s.input_pos 0)).0 ≡ true
    → segment_byte b';' s
      ≡ (none, start (push max_cmd_queue_length s.queue (set s.payload s.input_pos 0)).1)
unfolding segment_byte
segment_byte-end s e = rw e refl

segment_byte-full :
    (s : Segmenter)
    → (push max_cmd_queue_length s.queue (set s.payload s.input_pos 0)).0 ≡ false
    → (segment_byte b';' s).0 ≡ some (negsuc 0)
      × ((segment_byte b';' s).1.queue
          ≡ (push max_cmd_queue_length s.queue (set s.payload s.input_pos 0)).1)
unfolding segment_byte
segment_byte-full s e = rw e (refl, refl)

module _ (text rest : List ℕ) (queue : Ring (List ℕ)) (plain : IsPlain text)
    (fits : length text < max_cmd_length) where
  read_text :
      segment_bytes (text ++ b';' ∷ rest) (start queue)
      ≡ segment_bytes (b';' ∷ rest) (after text (state_after text waiting) queue)
  read_text = segment_bytes-plain text [] (b';' ∷ rest) waiting queue plain (omega arith)

  -- A text and its terminator put its payload in the queue, if there is room.
  pub segment_bytes-command :
      (push max_cmd_queue_length queue (payload_of text)).0 ≡ true
      → segment_bytes (text ++ b';' ∷ rest) (start queue)
        ≡ segment_bytes rest (start (push max_cmd_queue_length queue (payload_of text)).1)
  segment_bytes-command pushed =
      read_text
      ∙ segment_bytes-next b';' rest _ _ (
          segment_byte-end (after text (state_after text waiting) queue) (
            ap (λ p. (push max_cmd_queue_length queue p).0) (set-payload_of_end text fits)
            ∙ pushed))
      ∙ ap (λ p. segment_bytes rest (start (push max_cmd_queue_length queue p).1))
          (set-payload_of_end text fits)

  pub segment_commands-command :
      (push max_cmd_queue_length queue (payload_of text)).0 ≡ true
      → segment_commands queue (text ++ b';' ∷ rest)
        ≡ segment_commands (push max_cmd_queue_length queue (payload_of text)).1 rest
  unfolding segment_commands
  segment_commands-command pushed = ap (λ r. (r.0, r.1.queue)) (segment_bytes-command pushed)

  -- Where the queue is full, fs_segment_commands returns -1 and leaves the queue as it was.
  pub segment_commands-full :
      {q : List (List ℕ)}
      → Holds max_cmd_queue_length queue q
      → length q ≡ max_cmd_queue_length
      → segment_commands queue (text ++ b';' ∷ rest) ≡ (negsuc 0, queue)
  unfolding segment_commands
  segment_commands-full h e =
      let refused = push-full h (payload_of text) e in
      let (r, left) = segment_byte-full (after text (state_after text waiting) queue) (
        ap (λ p. (push max_cmd_queue_length queue p).0) (set-payload_of_end text fits)
        ∙ ap (λ z. z.0) refused) in
      ap (λ r. (r.0, r.1.queue)) read_text
      ∙ stops (segment_byte b';' (after text (state_after text waiting) queue)) r
      ∙ ap (λ z. (negsuc 0, z))
          (left
            ∙ ap (λ p. (push max_cmd_queue_length queue p).1) (set-payload_of_end text fits)
            ∙ ap (λ z. z.1) refused)
    where
      stopped : Option ℤ × Segmenter → ℤ × Ring (List ℕ)
      stopped r =
          let out : ℤ × Segmenter = elim r.0 [
            | none ↦ segment_bytes rest r.1
            | some z ↦ (z, r.1)
          ] in
          (out.0, out.1.queue)

      stops : (r : Option ℤ × Segmenter) → r.0 ≡ some (negsuc 0) → stopped r ≡ (negsuc 0, r.1.queue)
      stops r e = rw e refl

-- A call that returned 0 and left these payloads in the queue.
abbrev pub Queued : List (List ℕ) → ℤ × Ring (List ℕ) → Type 0
Queued q r = (r.0 ≡ pos 0) × Holds max_cmd_queue_length r.1 q

-- fs_segment_commands puts the payload of each command in the queue, in order, and returns 0: for
-- texts without a terminator or a line break, shorter than FS_MAX_CMD_LENGTH, each followed by ';',
-- where the queue has room for all of them.
pub segment_commands-format :
    (texts : List (List ℕ)) (queue : Ring (List ℕ)) (q : List (List ℕ))
    → AllPlain texts
    → Holds max_cmd_queue_length queue q
    → length q + length texts ≤ max_cmd_queue_length
    → Queued (q ++ payloads texts) (segment_commands queue (format texts))
unfolding segment_commands
segment_commands-format [] queue q plain h room = rw (append-nil q) (refl, h)
segment_commands-format (text ∷ texts) queue q ((plain, fits), rest) h room =
    let (pushed, h') = push-room h (payload_of text) (omega arith) in
    let queued =
      segment_commands-format texts (push max_cmd_queue_length queue (payload_of text)).1
        (q ++ payload_of text ∷ []) rest h'
        (omega (arith, length-append q (payload_of text ∷ []))) in
    subst (λ k. Queued k (segment_commands queue (format (text ∷ texts))))
      (sym (append-snoc q (payloads texts) (payload_of text)))
      (subst (Queued _) (sym (segment_commands-command text (format texts) queue plain fits pushed))
        queued)

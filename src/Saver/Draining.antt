-- ===== src/Saver/Draining.antt =====
-- The saved packets, from the queue to the file.
use trifecta_sdk.Common.{
  ℕ, zero, suc, ◌<◌, ◌≡◌, refl, sym, ap, ◌∙◌, true, Option, some, List, [], ◌∷◌, ◌++◌, arith,
  length, append-nil, append_assoc, ltb, length-append,
}
use mathlib.Core.Path.{subst}
use trifecta_sdk.RingBuffer.Queue
use trifecta_sdk.RingBuffer.Refine.{Holds}
use trifecta_sdk.RingBuffer.Operations.{pop_refines}
use trifecta_sdk.RingBuffer.{Ring, pop}
use trifecta_sdk.Packet.{Packet}
use trifecta_sdk.Device.{max_packet_queue_length}
use trifecta_sdk.Replay.Table.{joined}
use trifecta_sdk.Saver.{Texts, cells_of, format_packet, save_packets}

-- The lines of packets, one behind the other.
abbrev pub lines_of : Texts → List Packet → List ℕ
lines_of texts [] = []
lines_of texts (p ∷ ps) = (format_packet texts p).1 ++ lines_of texts ps

-- The loop came to its end with an empty queue and this file.
pub record Saved (file : List ℕ) (r : Option (Ring Packet × List ℕ)) : Type 0 where
  pub queue : Ring Packet
  pub result : r ≡ some (queue, file)
  pub empty : Holds max_packet_queue_length queue []

module _ (texts : Texts) where
  nothing_left :
      (fuel : ℕ) (queue : Ring Packet) (packet : Packet) (file : List ℕ)
      → Holds max_packet_queue_length queue []
      → Saved file (save_packets (suc fuel) texts queue packet file)
  unfolding save_packets Queue.pop
  nothing_left fuel queue packet file h =
      let (found, item, h') = pop_refines [] packet h in
      record {
        queue = (pop max_packet_queue_length queue packet).2;
        result = rw found refl;
        empty = h';
      }

  writes : (p : Packet) → ltb 0 (format_packet texts p).0 ≡ true
  unfolding format_packet
  writes p = ground (arith, length-append (joined (cells_of texts p)) (10 ∷ []))

  one_more :
      (fuel : ℕ) (queue : Ring Packet) (packet p : Packet) (file : List ℕ)
      → (pop max_packet_queue_length queue packet).0 ≡ true
      → (pop max_packet_queue_length queue packet).1 ≡ p
      → save_packets (suc fuel) texts queue packet file
        ≡ save_packets fuel texts
            (pop max_packet_queue_length queue packet).2
            p
            (file ++ (format_packet texts p).1)
  unfolding save_packets
  one_more fuel queue packet p file found item = rw (found, item, writes p) refl

  -- The saving thread writes every packet that is queued: its loop, given one round more than there are
  -- packets, adds their lines to the file, in the order in which they were queued, and leaves the queue
  -- empty. The queue is valid before, and the file stays open.
  pub save_packets-Saved :
      (q : List Packet) (fuel : ℕ) (queue : Ring Packet) (packet : Packet) (file : List ℕ)
      → Holds max_packet_queue_length queue q
      → length q < fuel
      → Saved (file ++ lines_of texts q) (save_packets fuel texts queue packet file)
  unfolding Queue.pop
  save_packets-Saved q zero queue packet file h lt = absurd (omega arith)
  save_packets-Saved [] (suc fuel) queue packet file h lt =
      subst (λ f. Saved f (save_packets (suc fuel) texts queue packet file)) (sym (append-nil file))
        (nothing_left fuel queue packet file h)
  save_packets-Saved (p ∷ q) (suc fuel) queue packet file h lt =
      let (found, item, h') = pop_refines (p ∷ q) packet h in
      let text = (format_packet texts p).1 in
      let rest =
        save_packets-Saved q fuel (pop max_packet_queue_length queue packet).2 p (file ++ text) h'
          (omega arith) in
      record {
        queue = rest.queue;
        result =
            one_more fuel queue packet p file found item
            ∙ rest.result
            ∙ ap (λ f. some (rest.queue, f)) (append_assoc file text (lines_of texts q));
        empty = rest.empty;
      }

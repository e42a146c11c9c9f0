-- ===== src/Device/Laws.antt =====
-- What the readers of the packet queue find in it, and what becomes of a packet that is enqueued.
use trifecta_sdk.Common.{
  ℕ, ◌≤◌, ◌≡◌, refl, sym, ap, ◌∙◌, inl, inr, Bool, true, false, Option, none, some, List, [], ◌∷◌,
  ◌++◌, ◌⊎◌, append-nil, arith, ltb, ◌==◌, length, if◌then◌else◌, Bool-cases,
}
use mathlib.Core.Path.{subst}
use trifecta_sdk.Common.Int.{ℤ, pos, negsuc}
use trifecta_sdk.RingBuffer.Queue
use trifecta_sdk.RingBuffer.Refine.{Holds}
use trifecta_sdk.RingBuffer.Operations.{push_force_refines, pop_refines, peek_at_refines}
use trifecta_sdk.RingBuffer.KeepLast.{keep_last, keep_last-step, length-push_force, keep_last_all}
use trifecta_sdk.RingBuffer.{Ring, peek_at}
use trifecta_sdk.Packet.{Packet, packet_type}
use trifecta_sdk.Device.Queue.{
  get_packet_count, get_packet_pointer_at_index, get_packet_at_index, get_raw_packet_from_queue,
  pop_raw_packet_from_queue, get_raw_packet,
}
use trifecta_sdk.Device.{
  RunStatus, error, idle, running, Saver, Device, max_packet_queue_length, save_on_packet,
  save_if_enabled, enqueue_into_packet_queue,
}

-- What a ring of packets holds after a forced push.
abbrev forced : List Packet → Packet → List Packet
forced q p = (Queue.push_force max_packet_queue_length q p).1

-- A running saver's queue holds these packets; nothing is said where there is no saver.
abbrev pub SaverHolds : Option Saver → List Packet → Type 0
SaverHolds none saved = Unit
SaverHolds (some saver) saved =
    (saver.running_status ≡ running) × Holds max_packet_queue_length saver.packets_to_save saved

-- The rings that a packet goes to: the device's own, and its saver's.
abbrev pub Feeds : Device → List Packet → List Packet → Type 0
Feeds dev q saved =
    Holds max_packet_queue_length dev.packet_buf_queue q × SaverHolds dev.save_context saved

save_if_enabled-SaverHolds :
    (saver : Option Saver) (saved : List Packet) (p : Packet)
    → SaverHolds saver saved
    → SaverHolds (save_if_enabled saver p) (forced saved p)
unfolding save_if_enabled save_on_packet
save_if_enabled-SaverHolds none saved p h = tt
save_if_enabled-SaverHolds (some saver) saved p (on, h) = by_status saver.running_status on
  where
    with_status : RunStatus → Saver
    with_status st = record { packets_to_save = saver.packets_to_save; running_status = st }

    by_status :
        (st : RunStatus)
        → st ≡ running
        → SaverHolds (save_if_enabled (some (with_status st)) p) (forced saved p)
    by_status running e = (refl, (push_force_refines h p).1)
    by_status idle e = absurd (cc)
    by_status error e = absurd (cc)

enqueue-Feeds :
    (dev : Device) (q saved : List Packet) (p : Packet)
    → Feeds dev q saved
    → Feeds (enqueue_into_packet_queue dev p) (forced q p) (forced saved p)
unfolding enqueue_into_packet_queue
enqueue-Feeds dev q saved p (h, hs) =
    ((push_force_refines h p).1, save_if_enabled-SaverHolds dev.save_context saved p hs)

-- Packets enqueued one after another.
abbrev pub enqueue_all : Device → List Packet → Device
enqueue_all dev [] = dev
enqueue_all dev (p ∷ ps) = enqueue_all (enqueue_into_packet_queue dev p) ps

forced-keep_last :
    (q ps : List Packet) (p : Packet)
    → length q ≤ max_packet_queue_length
    → keep_last max_packet_queue_length (forced q p ++ ps)
      ≡ keep_last max_packet_queue_length (q ++ p ∷ ps)
forced-keep_last q ps p few = keep_last-step q ps p max_packet_queue_length few (omega arith)

Holds-few :
    {rb : Ring Packet} {q : List Packet}
    → Holds max_packet_queue_length rb q
    → length q ≤ max_packet_queue_length
Holds-few h = omega (arith, h.as_long, h.valid.fits)

keep_last_nil :
    (q : List Packet)
    → length q ≤ max_packet_queue_length
    → q ≡ keep_last max_packet_queue_length (q ++ [])
keep_last_nil q few =
    sym (keep_last_all max_packet_queue_length q few)
    ∙ ap (keep_last max_packet_queue_length) (sym (append-nil q))

-- fs_enqueue_into_packet_queue, called for one packet after another, leaves the last 16 of the old
-- packets and the new ones in the device's queue, and, where a running saver is attached, the last 16
-- of its own and the new ones in the saver's queue. The queues are valid before.
pub enqueue_all-Feeds :
    (ps : List Packet) (dev : Device) (q saved : List Packet)
    → Feeds dev q saved
    → length saved ≤ max_packet_queue_length
    → Feeds
        (enqueue_all dev ps)
        (keep_last max_packet_queue_length (q ++ ps))
        (keep_last max_packet_queue_length (saved ++ ps))
enqueue_all-Feeds [] dev q saved h few = (
  subst (Holds max_packet_queue_length dev.packet_buf_queue) (keep_last_nil q (Holds-few h.0)) h.0,
  subst (SaverHolds dev.save_context) (keep_last_nil saved few) h.1,
)
enqueue_all-Feeds (p ∷ ps) dev q saved h few =
    let dev' = enqueue_into_packet_queue dev p in
    let (held, kept) =
      enqueue_all-Feeds ps dev' (forced q p) (forced saved p) (enqueue-Feeds dev q saved p h)
        (length-push_force max_packet_queue_length saved p (omega arith) few) in
    (
      subst (Holds max_packet_queue_length (enqueue_all dev' ps).packet_buf_queue)
          (forced-keep_last q ps p (Holds-few h.0)) held,
      subst (SaverHolds (enqueue_all dev' ps).save_context) (forced-keep_last saved ps p few) kept,
    )

-- The last packet enqueued is the one that fs_get_raw_packet copies.
pub get_raw_packet-enqueue :
    (ps : List Packet) (dev : Device) (p : Packet)
    → get_raw_packet (enqueue_all dev (ps ++ p ∷ [])) ≡ p
unfolding get_raw_packet enqueue_into_packet_queue
get_raw_packet-enqueue [] dev p = refl
get_raw_packet-enqueue (x ∷ ps) dev p =
    get_raw_packet-enqueue ps (enqueue_into_packet_queue dev x) p

-- fs_device_get_packet_count is the number of packets in the queue, at most 16.
pub get_packet_count_lem :
    (dev : Device) (q : List Packet)
    → Holds max_packet_queue_length dev.packet_buf_queue q
    → (get_packet_count dev ≡ length q) × (get_packet_count dev ≤ max_packet_queue_length)
unfolding get_packet_count
get_packet_count_lem dev q h = (sym h.as_long, h.valid.fits)

-- What a read at an index comes to, given what was found there.
abbrev pub read_result : Bool × Packet → ℤ × Packet
read_result (found, packet) =
    if found then (pos (packet_type packet), packet) else (negsuc 0, packet)

-- fs_device_get_packet_at_index copies the packet at the index, the oldest at 0, and returns its type;
-- past the last one it returns -1 and leaves the caller's buffer. The queue is valid.
pub get_packet_at_index_lem :
    (dev : Device) (q : List Packet) (buffer : Packet) (index : ℕ)
    → Holds max_packet_queue_length dev.packet_buf_queue q
    → get_packet_at_index dev buffer (pos index) ≡ read_result (Queue.peek_at q index buffer)
unfolding get_packet_at_index peek_at
get_packet_at_index_lem dev q buffer index h =
    as_peek (Bool-cases _) ∙ ap read_result (peek_at_refines index buffer h)
  where
    as_peek :
        (ltb index dev.packet_buf_queue.count ≡ true)
          ⊎ (ltb index dev.packet_buf_queue.count ≡ false)
        → get_packet_at_index dev buffer (pos index)
          ≡ read_result (peek_at max_packet_queue_length dev.packet_buf_queue index buffer)
    as_peek (inl e) = rw e refl
    as_peek (inr e) = rw e refl

-- What fs_get_raw_packet_from_queue does with what was found.
abbrev pub copy_result : Packet → Bool × Packet → ℤ × Packet
copy_result buffer (found, packet) = if found then (pos 0, packet) else (negsuc 0, buffer)

-- fs_get_raw_packet_from_queue copies the packet at the index, the oldest at 0, and returns 0; past the
-- last one it returns -1 and leaves the caller's buffer. The queue is valid.
pub get_raw_packet_from_queue_lem :
    (dev : Device) (q : List Packet) (buffer : Packet) (index : ℕ)
    → Holds max_packet_queue_length dev.packet_buf_queue q
    → get_raw_packet_from_queue dev buffer (pos index)
      ≡ copy_result buffer (Queue.peek_at q index dev.last_received_packet)
unfolding get_raw_packet_from_queue get_packet_pointer_at_index peek_at
get_raw_packet_from_queue_lem dev q buffer index h =
    as_peek (Bool-cases _)
    ∙ ap (copy_result buffer) (peek_at_refines index dev.last_received_packet h)
  where
    as_peek :
        (ltb index dev.packet_buf_queue.count ≡ true)
          ⊎ (ltb index dev.packet_buf_queue.count ≡ false)
        → get_raw_packet_from_queue dev buffer (pos index)
          ≡ copy_result buffer
              (peek_at max_packet_queue_length dev.packet_buf_queue index dev.last_received_packet)
    as_peek (inl e) = rw e refl
    as_peek (inr e) = rw e refl

-- fs_pop_raw_packet_from_queue on a queue that is not empty takes the oldest packet out and returns 0.
pub pop_raw_packet_from_queue-cons :
    (dev : Device) (p : Packet) (q : List Packet) (buffer : Packet)
    → Holds max_packet_queue_length dev.packet_buf_queue (p ∷ q)
    → let r = pop_raw_packet_from_queue dev buffer in
      (r.0 ≡ pos 0) × (r.1 ≡ p) × Holds max_packet_queue_length r.2.packet_buf_queue q
unfolding pop_raw_packet_from_queue Queue.pop
pop_raw_packet_from_queue-cons dev p q buffer h =
    let (found, value, h') = pop_refines (p ∷ q) buffer h in
    let some_packet : (dev.packet_buf_queue.count == 0) ≡ false = ground (arith, h.as_long) in
    rw (some_packet, found) (refl, value, h')

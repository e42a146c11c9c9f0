-- ===== src/Saver/Received.antt =====
-- From the packets that a device receives to the file of its saver.
use trifecta_sdk.Common.{ℕ, ◌≤◌, ◌≡◌, ap, some, List, [], ◌∷◌, ◌++◌, length, arith}
use mathlib.Core.Path.{subst}
use trifecta_sdk.RingBuffer.Refine.{Holds}
use trifecta_sdk.RingBuffer.KeepLast.{keep_last}
use trifecta_sdk.RingBuffer.{Ring}
use trifecta_sdk.Packet.{Packet}
use trifecta_sdk.Device.Laws.{SaverHolds, Feeds, enqueue_all, enqueue_all-Feeds}
use trifecta_sdk.Device.{
  Saver, Device, max_packet_queue_length, save_if_enabled, save_on_packet,
  enqueue_into_packet_queue,
}
use trifecta_sdk.Saver.Draining.{lines_of, Saved, save_packets-Saved}
use trifecta_sdk.Saver.{Texts, save_packets}

-- A saver stays attached.
enqueue_all-attached :
    (ps : List Packet) (dev : Device) (saver : Saver)
    → dev.save_context ≡ some saver
    → (saver' : Saver) × ((enqueue_all dev ps).save_context ≡ some saver')
unfolding enqueue_into_packet_queue save_if_enabled
enqueue_all-attached [] dev saver e = (saver, e)
enqueue_all-attached (p ∷ ps) dev saver e =
    enqueue_all-attached ps (enqueue_into_packet_queue dev p) (save_on_packet saver p).1
      (ap (λ s. save_if_enabled s p) e)

few :
    {queue : Ring Packet} {q : List Packet}
    → Holds max_packet_queue_length queue q
    → length q ≤ max_packet_queue_length
few h = omega (arith, h.as_long, h.valid.fits)

-- Packets that a device receives while a running saver is attached get into the saver's file: the next
-- loop of the saving thread, which 17 rounds are enough for, adds their lines in order, behind those of
-- the packets that were waiting. More than 16 packets at once lose the oldest ones.
pub enqueue_all-Saved :
    (texts : Texts) (saver : Saver) (dev : Device) (q saved ps : List Packet) (packet : Packet)
    (file : List ℕ)
    → dev.save_context ≡ some saver
    → Feeds dev q saved
    → length saved ≤ max_packet_queue_length
    → (saver' : Saver) × ((enqueue_all dev ps).save_context ≡ some saver')
      × Saved
          (file ++ lines_of texts (keep_last max_packet_queue_length (saved ++ ps)))
          (save_packets 17 texts saver'.packets_to_save packet file)
enqueue_all-Saved texts saver dev q saved ps packet file e h small =
    let kept = keep_last max_packet_queue_length (saved ++ ps) in
    let (saver', e') = enqueue_all-attached ps dev saver e in
    let fed = subst (λ s. SaverHolds s kept) e' (enqueue_all-Feeds ps dev q saved h small).1 in
    (
      saver',
      e',
      save_packets-Saved texts kept 17 saver'.packets_to_save packet file fed.1
          (omega (arith, few fed.1)),
    )

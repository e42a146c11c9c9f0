-- ===== src/RingBuffer/Room.antt =====
-- FS_RINGBUFFER_PUSH where there is room and where there is none.
use trifecta_sdk.Common.{
  ℕ, ◌<◌, ◌≡◌, refl, ap, ◌∙◌, true, false, List, [], ◌∷◌, ◌++◌, arith, ltb, length, lt→ltb,
  ltb_of_le,
}
use mathlib.Core.Path.{subst}
use trifecta_sdk.RingBuffer.Queue
use trifecta_sdk.RingBuffer.Refine.{Holds}
use trifecta_sdk.RingBuffer.Operations.{push_refines}
use trifecta_sdk.RingBuffer.{Ring, push}

module _ {ℓ} {A : Type ℓ} {size : ℕ} {rb : Ring A} {q : List A} (h : Holds size rb q) (v : A) where
  queue-room : length q < size → Queue.push size q v ≡ (true, q ++ v ∷ [])
  unfolding Queue.push
  queue-room lt = rw (lt→ltb _ _ lt) refl

  -- A push into a ring with room succeeds, and the item stands behind the others.
  pub push-room :
      length q < size → ((push size rb v).0 ≡ true) × Holds size (push size rb v).1 (q ++ v ∷ [])
  push-room lt =
      let (same, h') = push_refines h v in
      (
        same ∙ ap (λ r. r.0) (queue-room lt),
        subst (λ r. Holds size (push size rb v).1 r.1) (queue-room lt) h',
      )

  -- A full ring refuses a push and is not changed.
  pub push-full : length q ≡ size → push size rb v ≡ (false, rb)
  unfolding push
  push-full e =
      let full : ltb rb.count size ≡ false = ltb_of_le _ _ (omega (arith, h.as_long)) in
      rw full refl

-- ===== src/RingBuffer/Queue.antt =====
-- What a ring buffer promises: a first-in first-out queue of at most `size` items.
use trifecta_sdk.Common.{
  ℕ, Bool, true, false, List, [], ◌∷◌, ◌++◌, ltb, length, get_or, drop, if◌then◌else◌,
}

module _ {ℓ} {A : Type ℓ} where
  unfoldable pub push : ℕ → List A → A → Bool × List A
  push size q v = if ltb (length q) size then (true, q ++ v ∷ []) else (false, q)

  -- The oldest item makes room.
  unfoldable pub push_force : ℕ → List A → A → Bool × List A
  push_force size q v =
      if ltb (length q) size then (true, q ++ v ∷ []) else (true, drop 1 q ++ v ∷ [])

  unfoldable pub pop : List A → A → Bool × A × List A
  pop [] out = (false, out, [])
  pop (x ∷ q) out = (true, x, q)

  unfoldable pub peek_at : List A → ℕ → A → Bool × A
  peek_at q i out = if ltb i (length q) then (true, get_or q i out) else (false, out)

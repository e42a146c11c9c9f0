-- ===== src/RingBuffer/Trace.antt =====
-- Whole sequences of calls on one ring buffer.
use trifecta_sdk.Common.{ℕ, ◌≡◌, refl, Bool, List, [], ◌∷◌}
use mathlib.Core.Path.{ap₂}
use trifecta_sdk.RingBuffer.Queue
use trifecta_sdk.RingBuffer.Refine.{Holds}
use trifecta_sdk.RingBuffer.Operations.{push_refines, push_force_refines, pop_refines}
use trifecta_sdk.RingBuffer.{Ring, push, push_force, pop}

-- A caller's call, with the item that it passes or the content of the variable that it reads into.
pub data Call {ℓ} (A : Type ℓ) : Type ℓ where
  put : A → Call A
  force : A → Call A
  get : A → Call A

module _ {ℓ} {A : Type ℓ} (size : ℕ) where
  unfoldable pub run : Ring A → List (Call A) → List (Bool × A)
  run rb [] = []
  run rb (put v ∷ calls) = ((push size rb v).0, v) ∷ run (push size rb v).1 calls
  run rb (force v ∷ calls) = ((push_force size rb v).0, v) ∷ run (push_force size rb v).1 calls
  run rb (get out ∷ calls) =
      ((pop size rb out).0, (pop size rb out).1) ∷ run (pop size rb out).2 calls

  unfoldable pub run_queue : List A → List (Call A) → List (Bool × A)
  run_queue q [] = []
  run_queue q (put v ∷ calls) =
      ((Queue.push size q v).0, v) ∷ run_queue (Queue.push size q v).1 calls
  run_queue q (force v ∷ calls) =
      ((Queue.push_force size q v).0, v) ∷ run_queue (Queue.push_force size q v).1 calls
  run_queue q (get out ∷ calls) =
      ((Queue.pop q out).0, (Queue.pop q out).1) ∷ run_queue (Queue.pop q out).2 calls

-- No sequence of pushes, forced pushes and pops tells a ring buffer from the queue of its items, where the ring is valid and holds them.
pub run_refines {ℓ} :
    {A : Type ℓ} {size : ℕ} (calls : List (Call A)) (rb : Ring A) (q : List A)
    → Holds size rb q
    → run size rb calls ≡ run_queue size q calls
unfolding run run_queue
run_refines [] rb q h = refl
run_refines {size} (put v ∷ calls) rb q h =
    let (same, h') = push_refines h v in
    ap₂ (λ b r. (b, v) ∷ r) same (run_refines calls (push size rb v).1 (Queue.push size q v).1 h')
run_refines {size} (force v ∷ calls) rb q h =
    let (same, h') = push_force_refines h v in
    ap₂ (λ b r. (b, v) ∷ r) same
      (run_refines calls (push_force size rb v).1 (Queue.push_force size q v).1 h')
run_refines {size} (get out ∷ calls) rb q h =
    let (same, value, h') = pop_refines q out h in
    ap₂ (λ b r. b ∷ r) (λ i. (same i, value i))
      (run_refines calls (pop size rb out).2 (Queue.pop q out).2 h')

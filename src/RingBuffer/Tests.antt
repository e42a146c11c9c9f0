-- ===== src/RingBuffer/Tests.antt =====
-- The ring buffers at small sizes.
use trifecta_sdk.Common.{
  ℕ, ◌≡◌, refl, true, false, List, [], ◌∷◌, ◌++◌, arith, replicate, length-replicate,
}
use trifecta_sdk.RingBuffer.Queue
use trifecta_sdk.RingBuffer.Refine.{Holds}
use trifecta_sdk.RingBuffer.Operations.{init-Holds, push_refines}
use trifecta_sdk.RingBuffer.KeepLast.{keep_last}
use trifecta_sdk.RingBuffer.Trace.{Call, put, force, get, run, run_queue, run_refines}
use trifecta_sdk.RingBuffer.Bytes.{cb_push, max_data_length}
use trifecta_sdk.RingBuffer.Bytes.Laws.{cb_push-Holds}
use trifecta_sdk.RingBuffer.{Ring, init, push, push_force, pop}

abbrev two_cells : Ring ℕ
two_cells = record { buffer = 8 ∷ 9 ∷ []; head = 1; tail = 1; count = 1 }

abbrev one_item : Ring ℕ
one_item = (push 2 (init two_cells) 5).1

abbrev calls : List (Call ℕ)
calls = put 1 ∷ put 2 ∷ put 3 ∷ force 4 ∷ get 0 ∷ get 0 ∷ get 7 ∷ []

run-calls :
    run 2 (init two_cells) calls
    ≡ (true, 1) ∷ (true, 2) ∷ (false, 3) ∷ (true, 4) ∷ (true, 2) ∷ (true, 4) ∷ (false, 7) ∷ []
unfolding run push push_force pop init
run-calls = refl

empty-Holds : Holds 2 (init two_cells) []
empty-Holds = init-Holds 2 two_cells (omega arith) (omega arith) refl

run_refines_example : run 2 (init two_cells) calls ≡ run_queue 2 [] calls
run_refines_example = run_refines calls (init two_cells) [] empty-Holds

one_item-Holds : Holds 2 one_item (5 ∷ [])
unfolding Queue.push
one_item-Holds = (push_refines empty-Holds 5).1

abbrev bytes : Ring ℕ
bytes = record { buffer = replicate 512 0; head = 0; tail = 0; count = 0 }

no_bytes-Holds : Holds max_data_length (init bytes) []
no_bytes-Holds = init-Holds 512 bytes (omega arith) (omega arith) (length-replicate {A = ℕ} 512 0)

cb_push-Holds_example :
    Holds max_data_length
      (cb_push (init bytes) (1 ∷ 2 ∷ []))
      (keep_last max_data_length ([] ++ 1 ∷ 2 ∷ []))
cb_push-Holds_example = cb_push-Holds (1 ∷ 2 ∷ []) (init bytes) [] no_bytes-Holds

three_bytes-Holds : Holds max_data_length (cb_push (init bytes) (1 ∷ 2 ∷ 3 ∷ [])) (1 ∷ 2 ∷ 3 ∷ [])
unfolding keep_last
three_bytes-Holds = cb_push-Holds (1 ∷ 2 ∷ 3 ∷ []) (init bytes) [] no_bytes-Holds

-- ===== src/RingBuffer/Bytes/Laws.antt =====
-- The byte buffer's operations against a list of bytes.
use trifecta_sdk.Common.{
  ℕ, zero, suc, ◌+◌, ◌%◌, ◌≤◌, ◌<◌, ◌≡◌, refl, sym, ap, ◌∙◌, inl, inr, List, [], ◌∷◌, ◌++◌, arith,
  ltb, take, drop, Bool-cases, ltb→lt, lt→ltb, get_elem?-eq-get_or, drop-eq-cons, take_all,
  drop_all, append-nil, get_or-eq_of_get_elem?,
}
use mathlib.Core.Path.{ap₂, subst}
use trifecta_sdk.RingBuffer.Queue
use trifecta_sdk.RingBuffer.KeepLast.{keep_last, keep_last-step, keep_last_all}
use trifecta_sdk.RingBuffer.Refine.{Holds}
use trifecta_sdk.RingBuffer.Operations.{push_force_refines, pop_refines}
use trifecta_sdk.RingBuffer.{Ring, push_force, pop}
use trifecta_sdk.RingBuffer.Bytes.{
  max_data_length, cb_push_byte, cb_push, cb_peek_from, cb_peek, cb_pop_byte, cb_pop_rounds, cb_pop,
}

cb_push_byte-eq-push_force :
    (rb : Ring ℕ) (x : ℕ) → cb_push_byte rb x ≡ (push_force max_data_length rb x).1
unfolding cb_push_byte push_force
cb_push_byte-eq-push_force rb x = ground arith

-- fs_cb_push: the buffer then holds the last 512 of its old bytes and the new ones, in order,
-- if it was valid before.
pub cb_push-Holds :
    (xs : List ℕ) (rb : Ring ℕ) (q : List ℕ)
    → Holds max_data_length rb q
    → Holds max_data_length (cb_push rb xs) (keep_last max_data_length (q ++ xs))
unfolding cb_push
cb_push-Holds [] rb q h =
    rw (append-nil, keep_last_all max_data_length q (omega (arith, h.as_long, h.valid.fits))) h
cb_push-Holds (x ∷ xs) rb q h =
    rw
      (← keep_last-step q xs x max_data_length (omega (arith, h.as_long, h.valid.fits))
        (omega arith))
      (cb_push-Holds xs (cb_push_byte rb x) (Queue.push_force max_data_length q x).1
        (rw (cb_push_byte-eq-push_force) (push_force_refines h x).1))

cb_peek_from-take :
    (n i : ℕ) (rb : Ring ℕ) (q : List ℕ)
    → Holds max_data_length rb q
    → i + n ≤ rb.count
    → cb_peek_from rb i n ≡ take n (drop i q)
unfolding cb_peek
cb_peek_from-take zero i rb q h e = refl
cb_peek_from-take (suc n) i rb q h e =
    ap₂ ◌∷◌
      (get_or-eq_of_get_elem? rb.buffer ((rb.tail + i) % max_data_length) 0
        (h.cells i (omega arith) ∙ get_elem?-eq-get_or q i 0 (omega (arith, h.as_long))))
      (cb_peek_from-take n (i + 1) rb q h (omega arith))
    ∙ ap (take (suc n)) (sym (drop-eq-cons q i 0 (omega (arith, h.as_long))))

-- fs_cb_peek copies the oldest bytes, as many as there are up to `max_len`, of a valid buffer.
pub cb_peek_lem :
    (rb : Ring ℕ) (q : List ℕ) (max_len : ℕ)
    → Holds max_data_length rb q
    → cb_peek rb max_len ≡ take max_len q
unfolding cb_peek
cb_peek_lem rb q max_len h = elim (Bool-cases (ltb rb.count max_len)) [
  | inl fewer ↦ rw fewer (
      cb_peek_from-take rb.count 0 rb q h (omega arith)
      ∙ take_all rb.count q (omega (arith, h.as_long))
      ∙ sym (take_all max_len q (omega (arith, h.as_long, ltb→lt _ _ fewer))))
  | inr more ↦ rw more (cb_peek_from-take max_len 0 rb q h (ground arith))
]

cb_pop_byte-eq-pop :
    (rb : Ring ℕ)
    → 0 < rb.count
    → cb_pop_byte rb ≡ ((pop max_data_length rb 0).1, (pop max_data_length rb 0).2)
unfolding cb_pop_byte pop
cb_pop_byte-eq-pop rb h = rw (lt→ltb 0 rb.count h)

cb_pop_rounds-Holds :
    (n : ℕ) (rb : Ring ℕ) (q : List ℕ)
    → Holds max_data_length rb q
    → n ≤ rb.count
    → ((cb_pop_rounds n rb).0 ≡ take n q) × Holds max_data_length (cb_pop_rounds n rb).1 (drop n q)
unfolding cb_pop Queue.pop
cb_pop_rounds-Holds zero rb q h e = (refl, h)
cb_pop_rounds-Holds (suc n) rb [] h e = absurd (omega (arith, h.as_long))
cb_pop_rounds-Holds (suc n) rb (x ∷ q) h e =
    let same = cb_pop_byte-eq-pop rb (omega arith) in
    let (_, value, h') = pop_refines (x ∷ q) 0 h in
    let (taken, h'') =
      cb_pop_rounds-Holds n (pop max_data_length rb 0).2 q h'
        (omega (arith, h.as_long, h'.as_long)) in
    rw same (ap₂ ◌∷◌ value taken, h'')

-- fs_cb_pop takes the oldest bytes out, as many as there are up to `len`, and leaves the
-- others, in a valid buffer.
pub cb_pop-Holds :
    (rb : Ring ℕ) (q : List ℕ) (len : ℕ)
    → Holds max_data_length rb q
    → ((cb_pop rb len).0 ≡ take len q) × Holds max_data_length (cb_pop rb len).1 (drop len q)
unfolding cb_pop
cb_pop-Holds rb q len h = elim (Bool-cases (ltb rb.count len)) [
  | inl fewer ↦
      let over : rb.count ≤ len = omega (arith, ltb→lt _ _ fewer) in
      let (taken, h') = cb_pop_rounds-Holds rb.count rb q h (omega arith) in
      rw fewer (
        taken
            ∙ take_all rb.count q (omega (arith, h.as_long))
            ∙ sym (take_all len q (omega (arith, h.as_long))),
        subst (Holds max_data_length (cb_pop_rounds rb.count rb).1)
            (drop_all rb.count q (omega (arith, h.as_long))
              ∙ sym (drop_all len q (omega (arith, h.as_long))))
            h',
      )
  | inr more ↦ rw more (cb_pop_rounds-Holds len rb q h (ground arith))
]

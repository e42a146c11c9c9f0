-- ===== src/RingBuffer/Operations.antt =====
-- Each macro against the queue's operation.
use trifecta_sdk.Common.{
  ℕ, ◌+◌, ◌-◌, ◌%◌, ◌^◌, ◌<◌, ◌≡◌, refl, sym, ap, ◌∙◌, inl, inr, true, false, List, [], ◌∷◌, ◌++◌,
  arith, ltb, u16, length, get_elem?, get_or, set, drop, Bool-cases, length-set, length-append,
  length-drop, get_or-eq_of_get_elem?, ltb→lt, get_elem?-eq-get_or,
}
use trifecta_sdk.Common.Slot.{slot-lt, slot_step, slot_zero}
use native.Mathlib.Nat.{mod-lt}
use trifecta_sdk.RingBuffer.Queue
use trifecta_sdk.RingBuffer.Refine.{
  Holds, next_lem, next-slot, get_elem?-drop_one, write_cells, overwrite_cells,
}
use trifecta_sdk.RingBuffer.{Ring, init, next, push, push_force, pop, peek_at, peek}

-- FS_RINGBUFFER_INIT leaves a valid ring that holds nothing.
pub init-Holds {ℓ} :
    {A : Type ℓ} (size : ℕ) (rb : Ring A)
    → 0 < size
    → size < 2 ^ 16
    → length rb.buffer ≡ size
    → Holds size (init rb) []
unfolding init
init-Holds size rb pos small e = record {
  valid = record {
    small = small;
    storage = e;
    tail_in = pos;
    fits = omega arith;
    head_at = sym (slot_zero 0 size pos);
  };
  as_long = refl;
  cells = λ i lt. absurd (omega arith);
}

module _ {ℓ} {A : Type ℓ} {size : ℕ} {rb : Ring A} {q : List A} (h : Holds size rb q) where
  next_in : (i : ℕ) → next size i < size
  next_in i =
      let pos : 0 < size = omega (arith, h.valid.tail_in) in
      omega (arith, next_lem size i pos h.valid.small, slot-lt i 1 size, mod-lt (i + 1) pos)

  next_head : next size rb.head ≡ (rb.tail + (rb.count + 1)) % size
  next_head =
      ap (next size) h.valid.head_at ∙ next-slot size rb.tail rb.count h.valid.tail_in h.valid.small

  -- Counting from the next position is counting one further from `tail`.
  next_slot : (i : ℕ) → (next size rb.tail + i) % size ≡ (rb.tail + (i + 1)) % size
  next_slot i =
      ap (λ k. (k + i) % size)
        (next_lem size rb.tail (omega (arith, h.valid.tail_in)) h.valid.small)
      ∙ slot_step rb.tail i size

  -- The write that both pushes make where there is room.
  appended-Holds :
      (v : A)
      → rb.count < size
      → Holds size
          (record rb {
            buffer = set rb.buffer rb.head v;
            head = next size rb.head;
            count = u16 (rb.count + 1);
          })
          (q ++ v ∷ [])
  appended-Holds v room = record {
    valid = record {
      small = h.valid.small;
      storage = length-set rb.buffer rb.head v ∙ h.valid.storage;
      tail_in = h.valid.tail_in;
      fits = omega arith;
      head_at = next_head ∙ ap (λ k. (rb.tail + k) % size) (omega (arith, h.valid.small));
    };
    as_long = omega (arith, length-append q (v ∷ []), h.as_long, h.valid.small);
    cells = λ i lt. write_cells h v i room (omega (arith, h.valid.small));
  }

  -- FS_RINGBUFFER_PUSH answers as the queue does and leaves the queue's items: a full ring refuses.
  -- The ring is valid and holds the queue's items.
  pub push_refines :
      (v : A)
      → ((push size rb v).0 ≡ (Queue.push size q v).0)
        × Holds size (push size rb v).1 (Queue.push size q v).1
  unfolding push Queue.push
  push_refines v = elim (Bool-cases (ltb rb.count size)) [
    | inl room ↦ rw (h.as_long, room) (refl, appended-Holds v (ltb→lt _ _ room))
    | inr full ↦ rw (h.as_long, full) (refl, h)
  ]

  -- FS_RINGBUFFER_PUSH_FORCE always succeeds: a full ring loses its oldest item, and only that.
  -- The ring is valid and holds the queue's items.
  pub push_force_refines :
      (v : A)
      → ((push_force size rb v).0 ≡ (Queue.push_force size q v).0)
        × Holds size (push_force size rb v).1 (Queue.push_force size q v).1
  unfolding push_force Queue.push_force
  push_force_refines v = elim (Bool-cases (ltb rb.count size)) [
    | inl room ↦ rw (h.as_long, room) (refl, appended-Holds v (ltb→lt _ _ room))
    | inr full ↦
        rw (h.as_long, full)
          (
            refl,
            record {
              valid = record {
                small = h.valid.small;
                storage = length-set rb.buffer rb.head v ∙ h.valid.storage;
                tail_in = next_in rb.tail;
                fits = h.valid.fits;
                head_at = head_around (full_count full);
              };
              as_long = omega (
                arith,
                length-append (drop 1 q) (v ∷ []),
                length-drop 1 q,
                h.as_long,
                h.valid.tail_in,
                full_count full,
              );
              cells =
                  λ i lt. overwrite_cells h v i (full_count full) (omega (arith, full_count full));
            },
          )
  ]
    where
      full_count : ltb rb.count size ≡ false → rb.count ≡ size
      full_count e = ground (arith, h.valid.fits)

      head_around : rb.count ≡ size → next size rb.head ≡ (next size rb.tail + rb.count) % size
      head_around e = next_head ∙ sym (next_slot rb.count)

pop-cell {ℓ} :
    {A : Type ℓ} {size : ℕ} {rb : Ring A} (x : A) (q : List A) (out : A)
    → Holds size rb (x ∷ q)
    → get_or rb.buffer rb.tail out ≡ x
pop-cell {size} {rb} x q out h = get_or-eq_of_get_elem? rb.buffer rb.tail out (
    ap (get_elem? rb.buffer) (sym (slot_zero rb.tail size h.valid.tail_in))
    ∙ h.cells 0 (omega (arith, h.as_long)))

-- FS_RINGBUFFER_POP takes the oldest item out; an empty ring answers false and leaves the output.
-- The ring is valid and holds the queue's items.
pub pop_refines {ℓ} :
    {A : Type ℓ} {size : ℕ} {rb : Ring A} (q : List A) (out : A)
    → Holds size rb q
    → ((pop size rb out).0 ≡ (Queue.pop q out).0)
      × ((pop size rb out).1 ≡ (Queue.pop q out).1)
      × Holds size (pop size rb out).2 (Queue.pop q out).2
unfolding pop Queue.pop
pop_refines {size} {rb} [] out h = rw (empty) (refl, refl, h)
  where
    empty : ltb 0 rb.count ≡ false
    empty = ground (arith, h.as_long)
pop_refines {size} {rb} (x ∷ q) out h = rw some_left (
  refl,
  pop-cell x q out h,
  record {
    valid = record {
      small = h.valid.small;
      storage = h.valid.storage;
      tail_in = next_in h rb.tail;
      fits = omega (arith, h.valid.fits, h.valid.small, h.as_long);
      head_at =
          h.valid.head_at
          ∙ ap (λ k. (rb.tail + k) % size) (omega (arith, h.as_long, h.valid.fits, h.valid.small))
          ∙ sym (next_slot h (u16 (rb.count + 2 ^ 16 - 1)));
    };
    as_long = omega (arith, h.as_long, h.valid.fits, h.valid.small);
    cells = λ i lt.
        ap (get_elem? rb.buffer) (next_slot h i)
        ∙ h.cells (i + 1) (omega (arith, h.as_long, h.valid.fits, h.valid.small))
        ∙ sym (get_elem?-drop_one (x ∷ q) i);
  },
)
  where
    some_left : ltb 0 rb.count ≡ true
    some_left = ground (arith, h.as_long)

-- FS_RINGBUFFER_PEEK_AT reads the item at the index, and answers false past the last one,
-- in a valid ring that holds the queue's items.
pub peek_at_refines {ℓ} :
    {A : Type ℓ} {size : ℕ} {rb : Ring A} {q : List A} (i : ℕ) (out : A)
    → Holds size rb q
    → peek_at size rb i out ≡ Queue.peek_at q i out
unfolding peek_at Queue.peek_at
peek_at_refines {size} {rb} {q} i out h = elim (Bool-cases (ltb i rb.count)) [
  | inl inside ↦ rw (h.as_long, inside) (ap (λ v. (true, v)) (read (ltb→lt _ _ inside)))
  | inr past ↦ rw (h.as_long, past) refl
]
  where
    at : u16 ((rb.tail + i) % size) ≡ (rb.tail + i) % size
    at = omega (arith, slot-lt rb.tail i size h.valid.tail_in, h.valid.small)

    read : i < rb.count → get_or rb.buffer (u16 ((rb.tail + i) % size)) out ≡ get_or q i out
    read lt =
        ap (λ k. get_or rb.buffer k out) at
        ∙ get_or-eq_of_get_elem? rb.buffer _ out
            (h.cells i lt ∙ get_elem?-eq-get_or q i out (omega (arith, h.as_long)))

-- FS_RINGBUFFER_PEEK reads what FS_RINGBUFFER_POP would take out.
pub peek-eq-pop {ℓ} :
    {A : Type ℓ} (size : ℕ) (rb : Ring A) (out : A)
    → (peek rb out ≡ ((pop size rb out).0, (pop size rb out).1))
unfolding peek pop
peek-eq-pop size rb out = ground arith

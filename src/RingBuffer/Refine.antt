-- ===== src/RingBuffer/Refine.antt =====
-- When a ring holds the items of a queue.
use trifecta_sdk.Common.{
  ℕ, ◌+◌, ◌-◌, ◌%◌, ◌^◌, ◌≤◌, ◌<◌, ◌≡◌, refl, sym, ap, ◌∙◌, List, [], ◌∷◌, ◌++◌, arith, length,
  get_elem?, set, drop, get_elem?-set_self, get_elem?-set_ne, length-drop, get_elem?-append_left,
  get_elem?-append_length,
}
use trifecta_sdk.Common.Slot.{slot-lt, slot-ne, slot_step, slot_round, slot_zero}
use native.Mathlib.Decide.{dec_lt}
use native.Mathlib.Nat.{mod-lt, mod-add-mod}
use native.Mathlib.Numerals.{add-one}
use trifecta_sdk.RingBuffer.{Ring, next}

-- The positions are in range and agree with one another.
pub record IsValid {ℓ} {A : Type ℓ} (size : ℕ) (rb : Ring A) : Type 0 where
  pub small : size < 2 ^ 16
  pub storage : length rb.buffer ≡ size
  pub tail_in : rb.tail < size
  pub fits : rb.count ≤ size
  pub head_at : rb.head ≡ (rb.tail + rb.count) % size

-- The ring is valid and holds the items of `q`, oldest first.
pub record Holds {ℓ} {A : Type ℓ} (size : ℕ) (rb : Ring A) (q : List A) : Type ℓ where
  pub valid : IsValid size rb
  pub as_long : length q ≡ rb.count
  pub cells : (i : ℕ) → i < rb.count → get_elem? rb.buffer ((rb.tail + i) % size) ≡ get_elem? q i

pub next_lem : (size i : ℕ) → 0 < size → size < 2 ^ 16 → next size i ≡ (i + 1) % size
next_lem size i h s = omega (arith, mod-lt (i + 1) h)

pub next-slot :
    (size t c : ℕ) → t < size → size < 2 ^ 16 → next size ((t + c) % size) ≡ (t + (c + 1)) % size
next-slot size t c h s =
    next_lem size ((t + c) % size) (omega arith) s
    ∙ mod-add-mod (t + c) size 1
    ∙ ap (λ k. k % size) (omega arith)

pub get_elem?-drop_one {ℓ} :
    {A : Type ℓ} (q : List A) (i : ℕ) → get_elem? (drop 1 q) i ≡ get_elem? q (i + 1)
get_elem?-drop_one [] i = refl
get_elem?-drop_one (x ∷ q) i = rw add-one

module _ {ℓ} {A : Type ℓ} {size : ℕ} {rb : Ring A} {q : List A} (h : Holds size rb q) (v : A) where
  -- A write at `head` puts the item behind the others, if there is room.
  pub write_cells :
      (i : ℕ)
      → rb.count < size
      → i < rb.count + 1
      → get_elem? (set rb.buffer rb.head v) ((rb.tail + i) % size) ≡ get_elem? (q ++ v ∷ []) i
  write_cells i room lt = elim (dec_lt i rb.count) [
    | yes old ↦
        get_elem?-set_ne rb.buffer rb.head ((rb.tail + i) % size) v
          (λ e. slot-ne rb.tail i rb.count size h.valid.tail_in old room (sym h.valid.head_at ∙ e))
        ∙ h.cells i old
        ∙ sym (get_elem?-append_left q (v ∷ []) i (omega (arith, h.as_long)))
    | no new ↦
        let last : i ≡ rb.count = omega arith in
        let here : (rb.tail + i) % size ≡ rb.head =
          ap (λ k. (rb.tail + k) % size) last ∙ sym h.valid.head_at in
        ap (get_elem? (set rb.buffer rb.head v)) here
        ∙ get_elem?-set_self rb.buffer rb.head v (
            omega (
              arith,
              h.valid.storage,
              h.valid.head_at,
              slot-lt rb.tail rb.count size h.valid.tail_in,
            ))
        ∙ sym (ap (get_elem? (q ++ v ∷ [])) (last ∙ sym h.as_long) ∙ get_elem?-append_length q v)
  ]

  -- Where the ring is full, the write replaces the oldest item, and `tail` moves past it.
  pub overwrite_cells :
      (i : ℕ)
      → rb.count ≡ size
      → i < size
      → get_elem? (set rb.buffer rb.head v) ((next size rb.tail + i) % size)
        ≡ get_elem? (drop 1 q ++ v ∷ []) i
  overwrite_cells i full lt = elim (dec_lt (i + 1) size) [
    | yes old ↦
        ap (get_elem? (set rb.buffer rb.head v)) shifted
        ∙ get_elem?-set_ne rb.buffer rb.head ((rb.tail + (i + 1)) % size) v (λ e.
          slot-ne rb.tail 0 (i + 1) size h.valid.tail_in (omega arith) old
            (sym e ∙ at_tail ∙ sym (slot_zero rb.tail size h.valid.tail_in)))
        ∙ h.cells (i + 1) (omega arith)
        ∙ sym (get_elem?-drop_one q i)
        ∙ sym (get_elem?-append_left (drop 1 q) (v ∷ []) i (omega (arith, length-rest)))
    | no new ↦
        ap (get_elem? (set rb.buffer rb.head v)) (shifted ∙ around (omega arith))
        ∙ get_elem?-set_self rb.buffer rb.head v
            (omega (arith, at_tail, h.valid.storage, h.valid.tail_in))
        ∙ sym (
            ap (get_elem? (drop 1 q ++ v ∷ [])) (omega (arith, length-rest))
            ∙ get_elem?-append_length (drop 1 q) v)
  ]
    where
      at_tail : rb.head ≡ rb.tail
      at_tail =
          h.valid.head_at
          ∙ ap (λ k. (rb.tail + k) % size) full
          ∙ slot_round rb.tail size h.valid.tail_in

      shifted : (next size rb.tail + i) % size ≡ (rb.tail + (i + 1)) % size
      shifted =
          ap (λ k. (k + i) % size)
            (next_lem size rb.tail (omega (arith, h.valid.tail_in)) h.valid.small)
          ∙ slot_step rb.tail i size

      around : i + 1 ≡ size → (rb.tail + (i + 1)) % size ≡ rb.head
      around e = ap (λ k. (rb.tail + k) % size) (e ∙ sym full) ∙ sym h.valid.head_at

      length-rest : length (drop 1 q) ≡ size - 1
      length-rest = omega (arith, length-drop 1 q, h.as_long)

-- ===== src/Common/Slot.antt =====
-- Positions of a circular array: `(tail + i) % n`.
use Prim.Native.Nat.{ℕ, ◌+◌, ◌-◌, ◌%◌, ◌≤◌, ◌<◌}
use mathlib.Core.Path.{◌≡◌, ap, ◌∙◌}
use mathlib.Core.Logic.{◌≢◌}
use native.Mathlib.Nat.{mod-eq_of_lt, mod-eq-sub-mod, mod-lt, mod-add-mod}
use native.Mathlib.Decide.{dec_lt}
use native.Mathlib.Omega.{arith}

-- Past the end the position goes on from the start.
slot_wrapped : (t i n : ℕ) → t < n → i ≤ n → n ≤ t + i → (t + i) % n ≡ t + i - n
slot_wrapped t i n ht hi h =
    mod-eq-sub-mod {n = t + i} {m = n} h ∙ mod-eq_of_lt {n = t + i - n} {m = n} (omega arith)

pub slot-lt : (t i n : ℕ) → t < n → (t + i) % n < n
slot-lt t i n h = mod-lt (t + i) (omega arith)

-- Two positions less than a round apart differ.
pub slot-ne : (t i j n : ℕ) → t < n → i < j → j < n → (t + j) % n ≢ (t + i) % n
slot-ne t i j n ht hij hj = elim (dec_lt (t + j) n) [
  | yes p ↦ omega (arith, mod-eq_of_lt p, mod-eq_of_lt {n = t + i} {m = n} (omega arith))
  | no p ↦ elim (dec_lt (t + i) n) [
    | yes q ↦ omega (arith, slot_wrapped t j n ht (omega arith) (omega arith), mod-eq_of_lt q)
    | no q ↦ omega (
      arith,
      slot_wrapped t j n ht (omega arith) (omega arith),
      slot_wrapped t i n ht (omega arith) (omega arith),
    )
  ]
]

-- A step of the start is a step of the index.
pub slot_step : (t i n : ℕ) → ((t + 1) % n + i) % n ≡ (t + (i + 1)) % n
slot_step t i n = mod-add-mod (t + 1) n i ∙ ap (λ k. k % n) (omega arith)

-- A whole round comes back.
pub slot_round : (t n : ℕ) → t < n → (t + n) % n ≡ t
slot_round t n h = slot_wrapped t n n h (omega arith) (omega arith) ∙ omega arith

pub slot_zero : (t n : ℕ) → t < n → (t + 0) % n ≡ t
slot_zero t n h = ap (λ k. k % n) (omega arith) ∙ mod-eq_of_lt h

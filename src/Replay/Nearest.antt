-- ===== src/Replay/Nearest.antt =====
-- fs_replay_read_line: the line that it seeks to.
use trifecta_sdk.Common.{ℕ, ◌+◌, ◌-◌, ◌*◌, ◌/◌, ◌^◌, ◌≤◌, ◌<◌, ◌≡◌, arith, ◌⊎◌}
use trifecta_sdk.Replay.{Replay, nearest_start}

-- The number of blocks that the lines make, the last of which may be short.
pub record IsBlocked (step num_lines num_blocks : ℕ) : Type 0 where
  pub step_pos : 0 < step
  pub enough : num_lines ≤ num_blocks * step
  pub needed : num_blocks * step < num_lines + step
  pub few : num_lines < 2 ^ 31

pub block_le : (i step : ℕ) → i / step * step ≤ i
block_le i step = grind arith

block_lt : (i step : ℕ) → 0 < step → i < i / step * step + step
block_lt i step h = grind arith

next_is : (q step : ℕ) → (q + 1) * step ≡ q * step + step
next_is q step = grind arith

quotient_le : (i step : ℕ) → 0 < step → i / step ≤ i
quotient_le i step h = grind arith

mul_gap : (a b step : ℕ) → a < b → a * step + step ≤ b * step
mul_gap a b step h = grind arith

lt_of_mul_lt : (a b step : ℕ) → a * step < b * step → a < b
lt_of_mul_lt a b step h = grind arith

pub below_next : (i step : ℕ) → 0 < step → i < (i / step + 1) * step
below_next i step h = omega (arith, block_lt i step h, next_is (i / step) step)

-- The start of the block that line `i` lies in, and of the next one.
abbrev pub block_start : Replay → ℕ → ℕ
block_start r i = i / r.sparse_step * r.sparse_step

abbrev pub next_start : Replay → ℕ → ℕ
next_start r i = (i / r.sparse_step + 1) * r.sparse_step

module _ (r : Replay) (i : ℕ) (v : IsBlocked r.sparse_step r.num_lines r.num_blocks)
    (inside : i < r.num_lines) where
  -- The search starts from the block of line `i` where the next block is no nearer, or is none.
  pub nearest_start-here :
      (i - block_start r i ≤ next_start r i - i) ⊎ (r.num_lines ≤ next_start r i)
      → nearest_start r i ≡ (block_start r i, i / r.sparse_step)
  unfolding nearest_start
  nearest_start-here h = ground (
    arith,
    v.step_pos,
    v.needed,
    v.few,
    block_le i r.sparse_step,
    block_lt i r.sparse_step v.step_pos,
    next_is (i / r.sparse_step) r.sparse_step,
    quotient_le i r.sparse_step v.step_pos,
    mul_gap (i / r.sparse_step + 1) r.num_blocks r.sparse_step,
  )

  -- It starts from the next block where that one is nearer.
  pub nearest_start-next :
      next_start r i - i < i - block_start r i
      → next_start r i < r.num_lines
      → nearest_start r i ≡ (next_start r i, i / r.sparse_step + 1)
  unfolding nearest_start
  nearest_start-next h more = ground (
    arith,
    v.step_pos,
    v.enough,
    v.few,
    block_le i r.sparse_step,
    block_lt i r.sparse_step v.step_pos,
    quotient_le i r.sparse_step v.step_pos,
    lt_of_mul_lt (i / r.sparse_step + 1) r.num_blocks r.sparse_step,
  )

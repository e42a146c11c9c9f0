-- ===== src/RingBuffer.antt =====
-- include/FS_Trifecta_Defs_Ringbuffer.h, in its C form: the macros FS_RINGBUFFER_*, as functions of
-- the buffer's size. Calls run to completion here; the memory orders of the atomics are not modelled.
pub mod Queue
pub mod Refine
pub mod Operations
pub mod Room
pub mod KeepLast
pub mod Trace
pub mod Bytes
mod Tests
use trifecta_sdk.Common.{
  ℕ, ◌+◌, ◌-◌, ◌%◌, ◌^◌, Bool, true, false, List, ltb, u16, get_or, set, if◌then◌else◌,
}

-- FS_RINGBUFFER_DECLARE. `count` is the atomic's value, below 2 ^ 16.
pub record Ring {ℓ} (A : Type ℓ) : Type ℓ where
  pub buffer : List A
  pub head : ℕ
  pub tail : ℕ
  pub count : ℕ

-- FS_RINGBUFFER_INIT: the cells keep what they hold.
pub init {ℓ} : {A : Type ℓ} → Ring A → Ring A
init rb = record rb { head = 0; tail = 0; count = 0 }

-- `(i + 1) % buffer_size`, stored as `uint16_t`.
abbrev pub next : ℕ → ℕ → ℕ
next size i = u16 ((i + 1) % size)

module _ {ℓ} {A : Type ℓ} (size : ℕ) where
  -- The atomic additions wrap at 2 ^ 16.
  pub push : Ring A → A → Bool × Ring A
  push rb v =
      if ltb rb.count size
      then (
        true,
        record rb {
          buffer = set rb.buffer rb.head v;
          head = next size rb.head;
          count = u16 (rb.count + 1);
        },
      )
      else (false, rb)

  pub push_force : Ring A → A → Bool × Ring A
  push_force rb v =
      let written = record rb { buffer = set rb.buffer rb.head v; head = next size rb.head } in
      if ltb rb.count size
      then (true, record written { count = u16 (rb.count + 1) })
      else (true, record written { tail = next size rb.tail })

  -- `out` is what `*out_ptr` held before: a failed read leaves it.
  pub pop : Ring A → A → Bool × A × Ring A
  pop rb out =
      if ltb 0 rb.count
      then (
        true,
        get_or rb.buffer rb.tail out,
        record rb { tail = next size rb.tail; count = u16 (rb.count + 2 ^ 16 - 1) },
      )
      else (false, out, rb)

  unfoldable pub peek_at : Ring A → ℕ → A → Bool × A
  peek_at rb index out =
      if ltb index rb.count
      then (true, get_or rb.buffer (u16 ((rb.tail + index) % size)) out)
      else (false, out)

pub peek {ℓ} : {A : Type ℓ} → Ring A → A → Bool × A
peek rb out = if ltb 0 rb.count then (true, get_or rb.buffer rb.tail out) else (false, out)

-- ===== src/RingBuffer/Bytes.antt =====
-- include/FS_Trifecta_Device_Utils.h: fs_cb_push, fs_cb_peek and fs_cb_pop, the byte buffer of a
-- device, of FS_MAX_DATA_LENGTH bytes.
pub mod Laws
use trifecta_sdk.Common.{
  ℕ, zero, suc, ◌+◌, ◌-◌, ◌%◌, ◌^◌, List, [], ◌∷◌, ltb, u16, get_or, set, if◌then◌else◌,
}
use trifecta_sdk.RingBuffer.{Ring}

-- FS_MAX_DATA_LENGTH.
abbrev pub max_data_length : ℕ
max_data_length = 512

-- One round of the loop of `fs_cb_push`.
unfoldable pub cb_push_byte : Ring ℕ → ℕ → Ring ℕ
cb_push_byte rb byte =
    let written = record rb {
      buffer = set rb.buffer rb.head byte;
      head = u16 ((rb.head + 1) % max_data_length);
    } in
    if ltb rb.count max_data_length
    then record written { count = u16 (rb.count + 1) }
    else record written { tail = u16 ((rb.tail + 1) % max_data_length) }

unfoldable pub cb_push : Ring ℕ → List ℕ → Ring ℕ
unfolding cb_push_byte
cb_push rb [] = rb
cb_push rb (x ∷ xs) = cb_push (cb_push_byte rb x) xs

-- The bytes copied to `out_buf`, in order; a read out of the array's range would give 0.
cb_peek_from : Ring ℕ → ℕ → ℕ → List ℕ
cb_peek_from rb i zero = []
cb_peek_from rb i (suc n) =
    get_or rb.buffer ((rb.tail + i) % max_data_length) 0 ∷ cb_peek_from rb (i + 1) n

unfoldable pub cb_peek : Ring ℕ → ℕ → List ℕ
unfolding cb_peek_from
cb_peek rb max_len = cb_peek_from rb 0 (if ltb rb.count max_len then rb.count else max_len)

-- One round of the loop of `fs_cb_pop`; the byte is the one stored where `out_buf` is given.
unfoldable pub cb_pop_byte : Ring ℕ → ℕ × Ring ℕ
cb_pop_byte rb = (
  get_or rb.buffer rb.tail 0,
  record rb { tail = u16 ((rb.tail + 1) % max_data_length); count = u16 (rb.count + 2 ^ 16 - 1) },
)

cb_pop_rounds : ℕ → Ring ℕ → List ℕ × Ring ℕ
cb_pop_rounds zero rb = ([], rb)
cb_pop_rounds (suc n) rb =
    let (x, rb') = cb_pop_byte rb in let (xs, rb'') = cb_pop_rounds n rb' in (x ∷ xs, rb'')

-- The bytes popped, and the buffer behind them. The returned count is the list's length.
unfoldable pub cb_pop : Ring ℕ → ℕ → List ℕ × Ring ℕ
unfolding cb_pop_rounds
cb_pop rb len = cb_pop_rounds (if ltb rb.count len then rb.count else len) rb

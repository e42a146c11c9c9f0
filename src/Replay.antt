-- ===== src/Replay.antt =====
-- common/FS_Trifecta_Replay.c: the player of a recorded table of packets, which keeps the place of every
-- `sparse_step`-th line so that a line can be read out of order. No argument is NULL.
pub mod Stream
pub mod Header
pub mod Row
pub mod Rows
pub mod Nearest
pub mod Access
pub mod Opening
pub mod Playing
pub mod Sequence
pub mod Members
pub mod Columns
pub mod Cells
pub mod Switches
pub mod Table
pub mod Headings
pub mod Values
mod Tests
use trifecta_sdk.Common.{
  ℕ, zero, suc, ◌+◌, ◌-◌, ◌*◌, ◌/◌, ◌%◌, ◌^◌, ◌&&◌, Bool, true, false, Option, none, some, List, [],
  ◌∷◌, ◌++◌, ltb, leb, ◌==◌, u32, get_or, replicate, if◌then◌else◌,
}
use trifecta_sdk.Common.Int.{ℤ, pos, negsuc, is_pos, equals}
use trifecta_sdk.Packet.{Packet}
use trifecta_sdk.Replay.Stream.{File, Line, safe_fgets, fseek}
use trifecta_sdk.Replay.Header.{FieldId, no_field, max_columns, parse_header}
use trifecta_sdk.Replay.Row.{Numbers, replay_parse_packet}

-- `fs_replay_t`. `offsets` is the part of the allocated array that has been written.
pub record Replay : Type 0 where
  pub fp : Option File
  pub offsets : Option (List ℕ)
  pub num_lines : ℕ
  pub num_blocks : ℕ
  pub sparse_step : ℕ
  pub has_index : ℕ
  pub field_for_column : List FieldId

-- `fs_export_allocate_replay`, and the `memset` of `fs_replay_open`.
abbrev pub blank : Replay
blank = record {
  fp = none;
  offsets = none;
  num_lines = 0;
  num_blocks = 0;
  sparse_step = 0;
  has_index = 0;
  field_for_column = replicate max_columns no_field;
}

-- `sizeof(linebuf)`.
abbrev pub line_size : ℕ
line_size = 512

-- The variables of the loop of `fs_replay_open`, and the array it fills.
pub record Index : Type 0 where
  pub fp : File
  pub at : ℕ
  pub line : ℕ
  pub block : ℕ
  pub cap : ℕ
  pub offsets : List ℕ

-- The body of that loop, `none` where `realloc` fails. `malloc n` says whether `n` bytes can be had.
unfoldable pub index_line : (ℕ → Bool) → ℕ → File → Index → Option Index
index_line malloc sparse_step fp s =
    let next = λ (cap block : ℕ) (offsets : List ℕ).
      let s' : Index = record {
        fp = fp;
        at = fp.offset;
        line = u32 (s.line + 1);
        block = block;
        cap = cap;
        offsets = offsets;
      } in
      s' in
    if s.line % sparse_step == 0
    then (let cap = if s.block == s.cap then u32 (s.cap * 2) else s.cap in
        let grown = if s.block == s.cap then malloc (cap * 8) else true in
        if grown then some (next cap (u32 (s.block + 1)) (s.offsets ++ s.at ∷ [])) else none)
    else some (next s.cap s.block s.offsets)

-- The loop: the value returned in it, or 0 at its end; `none` where the fuel runs out.
unfoldable pub index_lines : (ℕ → Bool) → ℕ → ℕ → Index → Option (ℤ × Index)
index_lines malloc sparse_step zero s = none
index_lines malloc sparse_step (suc fuel) s =
    let (line, fp) = safe_fgets line_size s.fp in
    elim (is_pos line.code) [
      | true ↦ elim (index_line malloc sparse_step fp s) [
        | none ↦ some (negsuc 5, record s { fp = fp })
        | some s' ↦ index_lines malloc sparse_step fuel s'
      ]
      | false ↦ some (pos 0, record s { fp = fp })
    ]

-- What follows the header line in `fs_replay_open`, for the rest of `r`.
unfoldable pub build_index : (ℕ → Bool) → ℕ → File → Replay → Option (ℤ × Replay)
unfolding index_lines
build_index malloc fuel fp r = elim (malloc (4096 * 8)) [
  | false ↦ some (negsuc 4, record r { fp = some fp })
  | true ↦
      elim (index_lines malloc r.sparse_step fuel
        (record { fp = fp; at = fp.offset; line = 0; block = 0; cap = 4096; offsets = [] })) [
          | none ↦ none
          | some (pos zero, s) ↦ some (
            pos 0,
            record r {
              fp = some (if ltb 0 s.block then fseek s.fp (get_or s.offsets 0 0) else s.fp);
              offsets = some s.offsets;
              num_lines = s.line;
              num_blocks = s.block;
              has_index = if ltb 0 s.block then 1 else 0;
            },
          )
          | some (code, s) ↦ some (code, record r { fp = some s.fp; offsets = some s.offsets })
        ]
]

-- Every round but the last consumes a byte.
abbrev pub open_fuel : List ℕ → ℕ
open_fuel [] = 1
open_fuel (c ∷ cs) = suc (open_fuel cs)

-- `fs_replay_open`, where `fopen` finds these bytes, or fails. `r` is what the handle held before.
unfoldable pub replay_open : (ℕ → Bool) → Replay → Option (List ℕ) → ℕ → Option (ℤ × Replay)
unfolding build_index
replay_open malloc r found sparse_step =
    let r' = record blank { sparse_step = sparse_step } in
    if sparse_step == 0 then some (negsuc 0, r) else elim found [
      | none ↦ some (negsuc 1, r')
      | some bytes ↦
          let (line, fp) = safe_fgets line_size (record { bytes = bytes; offset = 0 }) in
          elim (is_pos line.code) [
            | false ↦ some (negsuc 2, record r' { fp = some fp })
            | true ↦
                build_index malloc (open_fuel bytes) fp
                  (record r' { field_for_column = parse_header line.text })
          ]
    ]

-- `fs_replay_get_size`.
abbrev pub get_size : Replay → ℕ
get_size r = r.num_lines

-- `fs_replay_read_next`.
unfoldable pub read_next : Numbers → Replay → Packet → ℤ × Replay × Packet
read_next numbers r out = elim r.fp [
  | none ↦ (negsuc 0, r, out)
  | some file ↦
      let (line, fp) = safe_fgets line_size file in
      let r' = record r { fp = some fp } in
      if equals line.code 0
      then (pos 1, r', out)
      else if is_pos line.code
      then (let (code, out') = replay_parse_packet numbers r.field_for_column line.text out in
          (code, r', out'))
      else (negsuc 1, r', out)
]

-- The loop that skips `n` lines, and whether all of them were read.
unfoldable pub skip_lines : ℕ → File → Bool × File
skip_lines zero fp = (true, fp)
skip_lines (suc n) fp =
    let (line, fp') = safe_fgets line_size fp in
    elim (is_pos line.code) [ true ↦ skip_lines n fp' | false ↦ (false, fp') ]

-- The line that `fs_replay_read_line` seeks to, and the block whose offset it takes for it.
unfoldable pub nearest_start : Replay → ℕ → ℕ × ℕ
nearest_start r line_index =
    let step = r.sparse_step in
    let block = line_index / step in
    let block_start = u32 (block * step) in
    let next_block = u32 (block + 1) in
    let next_start = u32 (next_block * step) in
    let dist_backward = line_index - block_start in
    let dist_forward =
      if ltb next_block r.num_blocks && ltb next_start r.num_lines
      then u32 (next_start + 2 ^ 32 - line_index)
      else 2 ^ 32 - 1 in
    if leb dist_backward dist_forward then (block_start, block) else (next_start, next_block)

-- What `fs_replay_read_line` does from a place in the file, with `n` lines to skip.
unfoldable pub read_after : Numbers → Replay → ℕ → File → Packet → ℤ × Replay × Packet
unfolding skip_lines
read_after numbers r n file out =
    let (skipped, fp) = skip_lines n file in
    if skipped
    then (let (line, fp') = safe_fgets line_size fp in
        let r' = record r { fp = some fp' } in
        if is_pos line.code
        then (let (code, out') = replay_parse_packet numbers r.field_for_column line.text out in
            (code, r', out'))
        else (negsuc 5, r', out))
    else (negsuc 4, record r { fp = some fp }, out)

-- The rest of `fs_replay_read_line`, for an open file and an array of offsets.
unfoldable pub read_indexed : Numbers → Replay → File → List ℕ → ℕ → Packet → ℤ × Replay × Packet
read_indexed numbers r file offsets line_index out =
    if r.has_index == 0
    then (negsuc 1, r, out)
    else if leb r.num_lines line_index
    then (negsuc 2, r, out)
    else (let (start_line, start_block) = nearest_start r line_index in
        read_after numbers r (line_index - start_line) (fseek file (get_or offsets start_block 0))
          out)

-- `fs_replay_read_line`, where `fseek` does not fail.
unfoldable pub read_line : Numbers → Replay → ℕ → Packet → ℤ × Replay × Packet
unfolding read_indexed
read_line numbers r line_index out = elim r.fp [
  | none ↦ (negsuc 0, r, out)
  | some file ↦ elim r.offsets [
    | none ↦ (negsuc 1, r, out)
    | some offsets ↦ read_indexed numbers r file offsets line_index out
  ]
]

-- `fs_replay_close`.
unfoldable pub replay_close : Replay → Replay
replay_close r = record r {
  fp = none;
  offsets = none;
  num_lines = 0;
  num_blocks = 0;
  sparse_step = 0;
  has_index = 0;
}

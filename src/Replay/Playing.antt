-- ===== src/Replay/Playing.antt =====
-- fs_replay_open on a table, and fs_replay_read_next from there to the end of the file.
use mathlib.Core.Path.{subst}
use trifecta_sdk.Common.{
  ℕ, suc, ◌*◌, ◌^◌, ◌≤◌, ◌<◌, ◌≡◌, refl, sym, ap, ◌∙◌, Bool, true, false, Option, some, List, [],
  ◌∷◌, ◌++◌, arith, length, drop, get_or, ◌==◌, lt→ltb, length-append,
}
use trifecta_sdk.Common.Int.{ℤ, pos, negsuc, is_pos}
use trifecta_sdk.Replay.Stream.{File, Line, fseek}
use trifecta_sdk.Replay.Header.{parse_header}
use trifecta_sdk.Replay.Rows.{Ahead, AllRows, IsRow, written, behind, safe_fgets-row, behind-Ahead}
use trifecta_sdk.Replay.Access.{IsOpen}
use trifecta_sdk.Replay.Opening.{HasIndexed, index_lines-HasEnded}
use trifecta_sdk.Replay.{Replay, Index, blank, index_lines, build_index, open_fuel, replay_open}

-- The call returned 0 with an open handle that has its index, the columns of the header and these
-- lines ahead.
pub record HasOpened (header : List ℕ) (rows : List (List ℕ)) (N : ℕ) (res : Option (ℤ × Replay))
    : Type 0 where
  pub handle : Replay
  pub result : res ≡ some (pos 0, handle)
  pub is_open : IsOpen handle (written (header ∷ rows)) rows
  pub ahead : Ahead is_open.file rows
  pub columns : handle.field_for_column ≡ parse_header (header ++ 10 ∷ [])
  pub step : handle.sparse_step ≡ N

length-written : (rows : List (List ℕ)) → length rows ≤ length (written rows)
length-written [] = omega arith
length-written (row ∷ rows) =
    omega (arith, length-append row (10 ∷ written rows), length-written rows)

open_fuel-length : (bytes : List ℕ) → open_fuel bytes ≡ suc (length bytes)
open_fuel-length [] = refl
open_fuel-length (c ∷ cs) = ap suc (open_fuel-length cs)

blocks_pos : (n blocks N : ℕ) → 0 < n → n ≤ blocks * N → 0 < blocks
blocks_pos n blocks N h le = grind arith

-- The handle before the index is built.
abbrev ready : ℕ → List ℕ → Replay
ready N header = record blank {
  sparse_step = N;
  field_for_column = parse_header (header ++ 10 ∷ []);
}

-- The handle with the index, and the file at the first line.
abbrev indexed_handle : ℕ → List ℕ → Index → Replay
indexed_handle N header s = record (ready N header) {
  fp = some (fseek s.fp (get_or s.offsets 0 0));
  offsets = some s.offsets;
  num_lines = s.line;
  num_blocks = s.block;
  has_index = 1;
}

module _ (malloc : ℕ → Bool) (all : (n : ℕ) → malloc n ≡ true) (N : ℕ) (positive : 0 < N)
    (header : List ℕ) (rows : List (List ℕ)) where
  build_index-ended :
      (fuel : ℕ) (fp : File) (s : Index)
      → index_lines malloc N fuel
          (record { fp = fp; at = fp.offset; line = 0; block = 0; cap = 4096; offsets = [] })
        ≡ some (pos 0, s)
      → 0 < s.block
      → build_index malloc fuel fp (ready N header) ≡ some (pos 0, indexed_handle N header s)
  unfolding build_index
  build_index-ended fuel fp s e h = rw (all (4096 * 8), e, lt→ltb 0 s.block h, build_index) refl

  indexed_handle-HasOpened :
      (s : Index) (res : Option (ℤ × Replay))
      → 0 < length rows
      → length rows < 2 ^ 31
      → HasIndexed N (written (header ∷ rows)) rows (length rows) s
      → res ≡ some (pos 0, indexed_handle N header s)
      → HasOpened header rows N res
  indexed_handle-HasOpened s res some_rows few v e =
      let file = fseek s.fp (get_or s.offsets 0 0) in
      let none_skipped : 0 * N ≡ 0 = omega arith in
      record {
        handle = indexed_handle N header s;
        result = e;
        is_open = record {
          file = file;
          offsets = s.offsets;
          opened = refl;
          contents = v.contents;
          indexed = refl;
          has_index = refl;
          counted = v.lines;
          blocked = record {
            step_pos = positive;
            enough = omega (arith, v.lines, v.enough);
            needed = omega (arith, v.lines, v.needed);
            few = omega (arith, v.lines);
          };
          marks = v.marks;
        };
        ahead =
            ap (drop (get_or s.offsets 0 0)) v.contents
            ∙ v.marks 0 (omega arith)
            ∙ ap (λ n. written (drop n rows)) none_skipped;
        columns = refl;
        step = refl;
      }

  build_index-HasOpened :
      (fuel : ℕ) (fp : File)
      → AllRows rows
      → 0 < length rows
      → length rows < 2 ^ 31
      → length rows < fuel
      → fp.bytes ≡ written (header ∷ rows)
      → Ahead fp rows
      → HasOpened header rows N (build_index malloc fuel fp (ready N header))
  build_index-HasOpened fuel fp good some_rows few enough contents ahead =
      let bytes = written (header ∷ rows) in
      let s : Index = record {
        fp = fp;
        at = fp.offset;
        line = 0;
        block = 0;
        cap = 4096;
        offsets = [];
      } in
      let start : HasIndexed N bytes rows 0 s = record {
        contents = contents;
        ahead = ahead;
        here = refl;
        lines = refl;
        enough = omega arith;
        needed = omega arith;
        stored = refl;
        marks = λ b h. absurd (omega arith);
      } in
      let done =
        index_lines-HasEnded malloc all N positive bytes rows rows 0 fuel s refl (omega arith) good
          enough few start in
      indexed_handle-HasOpened done.last _ some_rows few done.indexed (
        build_index-ended fuel fp done.last done.result
          (blocks_pos (length rows) done.last.block N some_rows done.indexed.enough))

  replay_open-ready :
      (r : Replay)
      → IsRow header
      → let bytes = written (header ∷ rows) in
        replay_open malloc r (some bytes) N
        ≡ build_index malloc
            (open_fuel bytes)
            (behind header (record { bytes = bytes; offset = 0 }))
            (ready N header)
  unfolding replay_open
  replay_open-ready r good =
      let bytes = written (header ∷ rows) in
      let start : File = record { bytes = bytes; offset = 0 } in
      let no : (N == 0) ≡ false = ground arith in
      let r' = record blank { sparse_step = N } in
      rw no (
        ap
          (λ (read : Line × File).
            let res : Option (ℤ × Replay) = elim (is_pos read.0.code) [
              | false ↦ some (negsuc 2, record r' { fp = some read.1 })
              | true ↦
                  build_index malloc (open_fuel bytes) read.1
                    (record r' { field_for_column = parse_header read.0.text })
            ] in
            res)
          (safe_fgets-row start header rows refl good))

  -- fs_replay_open on a file of a header line and at least one more line, all of which fit the line
  -- buffer, returns 0: the columns are those of the header, every block of `sparse_step` lines has the
  -- offset of its first line, and the file is at the first of the lines. Memory can be had,
  -- `sparse_step` is not 0, and there are fewer than 2^31 lines.
  pub replay_open-HasOpened :
      (r : Replay)
      → IsRow header
      → AllRows rows
      → 0 < length rows
      → length rows < 2 ^ 31
      → HasOpened header rows N (replay_open malloc r (some (written (header ∷ rows))) N)
  replay_open-HasOpened r good_header good some_rows few =
      let bytes = written (header ∷ rows) in
      let start : File = record { bytes = bytes; offset = 0 } in
      subst (HasOpened header rows N) (sym (replay_open-ready r good_header)) (
        build_index-HasOpened (open_fuel bytes) (behind header start) good some_rows few
          (omega (arith, open_fuel-length bytes, length-written (header ∷ rows))) refl
          (behind-Ahead start header rows refl))

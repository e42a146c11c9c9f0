-- ===== src/Replay/Sequence.antt =====
-- fs_replay_read_next, call after call.
use trifecta_sdk.Common.{
  ℕ, zero, suc, ◌^◌, ◌<◌, ◌≡◌, refl, ap, ◌∙◌, Bool, true, Option, none, some, List, [], ◌∷◌, ◌++◌,
  length, if◌then◌else◌,
}
use trifecta_sdk.Common.Int.{ℤ, pos, negsuc, is_pos, equals}
use trifecta_sdk.Packet.{Packet}
use trifecta_sdk.Replay.Stream.{File, Line, safe_fgets}
use trifecta_sdk.Replay.Header.{FieldId, parse_header}
use trifecta_sdk.Replay.Row.{Numbers, replay_parse_packet}
use trifecta_sdk.Replay.Rows.{
  Ahead, AllRows, IsRow, written, behind, safe_fgets-row, behind-Ahead, safe_fgets-end,
}
use trifecta_sdk.Replay.Playing.{replay_open-HasOpened}
use trifecta_sdk.Replay.{Replay, line_size, replay_open, read_next}

-- What `n` calls return and leave in `*out`.
abbrev pub reads : Numbers → ℕ → Replay → Packet → List (ℤ × Packet)
reads numbers zero r out = []
reads numbers (suc n) r out =
    let (code, r', out') = read_next numbers r out in (code, out') ∷ reads numbers n r' out'

-- The lines of a table parsed one after another, and the end of the file.
abbrev pub played : Numbers → List FieldId → List (List ℕ) → Packet → List (ℤ × Packet)
played numbers fields [] out = (pos 1, out) ∷ []
played numbers fields (row ∷ rows) out =
    let (code, out') = replay_parse_packet numbers fields (row ++ 10 ∷ []) out in
    (code, out') ∷ played numbers fields rows out'

module _ (numbers : Numbers) (r : Replay) (out : Packet) (file : File)
    (opened : r.fp ≡ some file) where
  -- A call on an open file, once its line is read.
  abbrev on_line : Line × File → ℤ × Replay × Packet
  on_line read =
      let r' = record r { fp = some read.1 } in
      if equals read.0.code 0
      then (pos 1, r', out)
      else if is_pos read.0.code
      then (let (code, out') = replay_parse_packet numbers r.field_for_column read.0.text out in
          (code, r', out'))
      else (negsuc 1, r', out)

  read_next-on_line : read_next numbers r out ≡ on_line (safe_fgets line_size file)
  unfolding read_next
  read_next-on_line =
      ap
        (λ (fp : Option File).
          let res : ℤ × Replay × Packet = elim fp [
            | none ↦ (negsuc 0, r, out)
            | some file ↦ on_line (safe_fgets line_size file)
          ] in
          res)
        opened

  read_next-row :
      (row : List ℕ) (rows : List (List ℕ))
      → Ahead file (row ∷ rows)
      → IsRow row
      → read_next numbers r out ≡ (
          let (code, out') = replay_parse_packet numbers r.field_for_column (row ++ 10 ∷ []) out in
          (code, record r { fp = some (behind row file) }, out'))
  read_next-row row rows ahead ok =
      read_next-on_line ∙ ap on_line (safe_fgets-row file row rows ahead ok)

  read_next-end :
      Ahead file [] → read_next numbers r out ≡ (pos 1, record r { fp = some file }, out)
  read_next-end ahead = read_next-on_line ∙ ap on_line (safe_fgets-end file ahead)

reads-played :
    (numbers : Numbers) (rows : List (List ℕ)) (r : Replay) (out : Packet) (file : File)
    → r.fp ≡ some file
    → Ahead file rows
    → AllRows rows
    → reads numbers (suc (length rows)) r out ≡ played numbers r.field_for_column rows out
reads-played numbers [] r out file opened ahead ok =
    ap (λ (res : ℤ × Replay × Packet). let one : List (ℤ × Packet) = (res.0, res.2) ∷ [] in one)
      (read_next-end numbers r out file opened ahead)
reads-played numbers (row ∷ rows) r out file opened ahead ok =
    let out' = (replay_parse_packet numbers r.field_for_column (row ++ 10 ∷ []) out).1 in
    let code = (replay_parse_packet numbers r.field_for_column (row ++ 10 ∷ []) out).0 in
    let r' = record r { fp = some (behind row file) } in
    ap
      (λ (res : ℤ × Replay × Packet).
        let all : List (ℤ × Packet) =
          (res.0, res.2) ∷ reads numbers (suc (length rows)) res.1 res.2 in
        all)
      (read_next-row numbers r out file opened row rows ahead ok.0)
    ∙ ap (λ (l : List (ℤ × Packet)). (code, out') ∷ l)
        (reads-played numbers rows r' out' (behind row file) refl (behind-Ahead file row rows ahead)
          ok.1)

-- A file of a header line and more lines is opened with result 0, and then fs_replay_read_next parses
-- each line in order, by the columns of the header, and returns 1 at the end of the file: for lines
-- that fit the line buffer, at least one and fewer than 2^31, where memory can be had and `sparse_step`
-- is not 0.
pub replay_open-played :
    (malloc : ℕ → Bool)
    → ((n : ℕ) → malloc n ≡ true)
    → (numbers : Numbers) (N : ℕ) (header : List ℕ) (rows : List (List ℕ)) (r : Replay)
      (out : Packet)
    → 0 < N
    → IsRow header
    → AllRows rows
    → 0 < length rows
    → length rows < 2 ^ 31
    → (r' : Replay) × (replay_open malloc r (some (written (header ∷ rows))) N ≡ some (pos 0, r'))
      × (reads numbers (suc (length rows)) r' out
          ≡ played numbers (parse_header (header ++ 10 ∷ [])) rows out)
replay_open-played malloc all numbers N header rows r out positive good_header good some_rows few =
    let done =
      replay_open-HasOpened malloc all N positive header rows r good_header good some_rows few in
    (
      done.handle,
      done.result,
      reads-played numbers rows done.handle out done.is_open.file done.is_open.opened done.ahead
            good
          ∙ ap (λ fields. played numbers fields rows out) done.columns,
    )

-- ===== src/Replay/Tests.antt =====
-- A small table, opened and read.
use trifecta_sdk.Common.{
  ℕ, ◌≡◌, refl, inl, Bool, true, some, List, [], ◌∷◌, ◌++◌, arith, length, drop, replicate, take,
}
use trifecta_sdk.Common.Int.{pos}
use trifecta_sdk.Packet.{Packet}
use trifecta_sdk.Replay.Header.{
  codes, parse_header, FieldId, split_comma, c_string, find_field, same_text, normalize_token,
  tolower,
}
use trifecta_sdk.Commands.Atoi.{skip_space, is_space, is_digit, digits, atoi}
use trifecta_sdk.Replay.Row.{Numbers, replay_parse_packet, type_of_row, shape_of}
use trifecta_sdk.Replay.Table.{joined, AllCells}
use trifecta_sdk.Replay.Values.{Holds, replay_parse_packet-member}
use trifecta_sdk.Replay.Headings.{field_named, parse_header-joined}
use mathlib.Core.List.{map}
use trifecta_sdk.Packet.Member.{Field, width_of}
use trifecta_sdk.Packet.Structs.{composite_packet}
use trifecta_sdk.Replay.Rows.{AllRows, IsRow, written}
use trifecta_sdk.Replay.Access.{HasRead, read_line-row, read_line-skips}
use trifecta_sdk.Replay.Playing.{HasOpened, replay_open-HasOpened}
use trifecta_sdk.Replay.Sequence.{reads, played, replay_open-played}
use trifecta_sdk.Replay.{Replay, blank, replay_open, read_line}

abbrev numbers : Numbers
numbers = record { strtof = λ s. length s; strtod = λ s. length s }

abbrev always : ℕ → Bool
always n = true

abbrev header : List ℕ
header = codes "Type, Time,AX0 "

abbrev table_rows : List (List ℕ)
table_rows =
    codes "1,10,4"
    ∷ codes "2,20,5"
    ∷ codes "0,30,6"
    ∷ codes "1,40,7"
    ∷ codes "1,50,8"
    ∷ codes "1,60,8"
    ∷ []

header_fields :
    take 4 (parse_header (header ++ 10 ∷ []))
    ≡ FieldId.type ∷ FieldId.time ∷ FieldId.ax0 ∷ FieldId.no_field ∷ []
unfolding parse_header split_comma c_string find_field same_text normalize_token skip_space is_space
    tolower
header_fields = refl

header-IsRow : IsRow header
header-IsRow = omega arith

table_rows-AllRows : AllRows table_rows
table_rows-AllRows = omega arith

abbrev nothing : Packet
nothing = replicate 185 0

replay_open-HasOpened_example :
    HasOpened header table_rows 4
      (replay_open always blank (some (written (header ∷ table_rows))) 4)
replay_open-HasOpened_example =
    replay_open-HasOpened always (λ n. refl) 4 (omega arith) header table_rows blank header-IsRow
      table_rows-AllRows (omega arith) (omega arith)

opened :
    HasOpened header table_rows 4
      (replay_open always blank (some (written (header ∷ table_rows))) 4)
opened =
    replay_open-HasOpened always (λ n. refl) 4 (omega arith) header table_rows blank header-IsRow
      table_rows-AllRows (omega arith) (omega arith)

read_line-row_example :
    HasRead numbers opened.handle nothing
      (written (header ∷ table_rows))
      (codes "0,30,6")
      (drop 3 table_rows)
      (read_line numbers opened.handle 2 nothing)
read_line-row_example =
    read_line-row numbers opened.handle nothing (written (header ∷ table_rows)) table_rows
      opened.is_open table_rows-AllRows 2 (codes "0,30,6") (drop 3 table_rows) refl
      (rw opened.step (inl (omega arith)))

read_line-skips_example :
    HasRead numbers opened.handle nothing
      (written (header ∷ table_rows))
      (codes "1,50,8")
      (drop 5 table_rows)
      (read_line numbers opened.handle 3 nothing)
read_line-skips_example =
    read_line-skips numbers opened.handle nothing (written (header ∷ table_rows)) table_rows
      opened.is_open table_rows-AllRows 3 (codes "1,50,8") (drop 5 table_rows)
      (rw opened.step (omega arith)) (rw opened.step refl)

replay_open-played_example :
    (r' : Replay) × (replay_open always blank (some (written (header ∷ table_rows))) 4
      ≡ some (pos 0, r'))
    × (reads numbers 7 r' nothing
        ≡ played numbers (parse_header (header ++ 10 ∷ [])) table_rows nothing)
replay_open-played_example =
    replay_open-played always (λ n. refl) numbers 4 header table_rows blank nothing (omega arith)
      header-IsRow table_rows-AllRows (omega arith) (omega arith)

abbrev headings : List (List ℕ)
headings = codes "Type" ∷ codes " time " ∷ codes "AX0" ∷ codes "gps\n" ∷ []

headings-AllCells : AllCells headings
headings-AllCells = ground arith

parse_header-joined_example :
    parse_header (joined headings) ≡ map field_named headings ++ replicate 60 FieldId.no_field
parse_header-joined_example =
    parse_header-joined headings headings-AllCells (omega arith) (omega arith) (omega arith)

abbrev cells : List (List ℕ)
cells = codes "1" ∷ codes "77" ∷ codes "2.5" ∷ []

cells-AllCells : AllCells cells
cells-AllCells = ground arith

replay_parse_packet-member_example : Holds numbers composite_packet Field.ax0 (codes "2.5") (
    replay_parse_packet numbers
      (FieldId.type ∷ FieldId.time ∷ FieldId.ax0 ∷ [])
      (joined cells)
      nothing)
unfolding width_of type_of_row shape_of atoi is_space is_digit skip_space digits
replay_parse_packet-member_example =
    replay_parse_packet-member numbers (FieldId.type ∷ FieldId.time ∷ []) [] FieldId.ax0
      (codes "1" ∷ codes "77" ∷ []) [] (codes "2.5") nothing Field.ax0 refl refl tt composite_packet
      cells-AllCells (omega arith) (omega arith) refl (omega arith)

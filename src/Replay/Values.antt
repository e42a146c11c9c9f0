-- ===== src/Replay/Values.antt =====
-- The numbers of a line in the packet that fs_replay_parse_packet makes of it.
use trifecta_sdk.Common.{
  ℕ, ◌%◌, ◌^◌, ◌≤◌, ◌<◌, ◌≡◌, refl, sym, ap, ◌∙◌, Option, none, some, List, ◌∷◌, ◌++◌, arith,
  length, drop, replicate, length-append, length-replicate,
}
use mathlib.Core.Path.{subst}
use trifecta_sdk.Common.Int.{ℤ, pos, negsuc}
use trifecta_sdk.Packet.{Packet, member}
use trifecta_sdk.Packet.Member.{Layout, Field, size_of, width_of}
use trifecta_sdk.Packet.Structs.{composite_packet, composite_packet_2}
use trifecta_sdk.Packet.Structs64.{composite_packet_64, composite_packet_64_2}
use trifecta_sdk.Replay.Header.{FieldId, max_columns}
use trifecta_sdk.Replay.Row.{
  Numbers, Shape, composite, composite2, composite64, composite64_2, unsupported, assign_columns,
  type_of_row, shape_of, clear, bits_of, parse_shape, parse_cells, replay_parse_packet,
}
use trifecta_sdk.Replay.Columns.{
  IsFloatMember, column_member, column_member-composite, column_member-composite2,
  column_member-composite64, column_member-composite64_2,
}
use trifecta_sdk.Replay.Cells.{IsAssign, length-set_member}
use trifecta_sdk.Replay.Switches.{
  composite-IsAssign, composite2-IsAssign, composite64-IsAssign, composite64_2-IsAssign,
}
use trifecta_sdk.Replay.Table.{joined, AllCells, AllOther, cells_of, columns-member}

-- The structure that a packet of a shape is read through.
abbrev pub structure_of : Shape → Option Layout
structure_of composite = some composite_packet
structure_of composite2 = some composite_packet_2
structure_of composite64 = some composite_packet_64
structure_of composite64_2 = some composite_packet_64_2
structure_of unsupported = none

clear_size : (layout : Layout) (t : ℕ) (p : Packet) → size_of layout ≤ length (clear layout t p)
unfolding clear
clear_size layout t p = omega (
  arith,
  length-set_member layout Field.type t (replicate (size_of layout) 0 ++ drop (size_of layout) p),
  length-append (replicate (size_of layout) 0) (drop (size_of layout) p),
  length-replicate {A = ℕ} (size_of layout) 0,
)

module _ (numbers : Numbers) (fields : List FieldId) (cells : List (List ℕ)) (out : Packet) where
  -- A line is cut at its commas, where it fits the local buffer and has no more than 64 cells.
  pub replay_parse_packet-joined :
      AllCells cells
      → 0 < length cells
      → length cells ≤ max_columns
      → length (joined cells) ≤ 511
      → replay_parse_packet numbers fields (joined cells) out ≡ parse_cells numbers fields cells out
  unfolding replay_parse_packet
  replay_parse_packet-joined h some_cells fits short =
      ap (λ (cells : List (List ℕ)). parse_cells numbers fields cells out)
        (cells_of cells h some_cells fits short)

  -- fs_replay_parse_packet refuses every other packet type, those of the regular structures among
  -- them, and leaves the packet as it was: for a line of at most 64 cells that fits its buffer.
  pub replay_parse_packet-unsupported :
      AllCells cells
      → 0 < length cells
      → length cells ≤ max_columns
      → length (joined cells) ≤ 511
      → structure_of (shape_of (type_of_row fields cells)) ≡ none
      → replay_parse_packet numbers fields (joined cells) out ≡ (negsuc 1, out)
  unfolding parse_cells
  replay_parse_packet-unsupported h some_cells fits short none_of =
      replay_parse_packet-joined h some_cells fits short
      ∙ by_shape (bits_of 8 (type_of_row fields cells)) (shape_of (type_of_row fields cells))
          none_of
    where
      by_shape :
          (t : ℕ) (o : Shape)
          → structure_of o ≡ none
          → parse_shape numbers fields cells t out o ≡ (negsuc 1, out)
      by_shape t composite e = cc
      by_shape t composite2 e = cc
      by_shape t composite64 e = cc
      by_shape t composite64_2 e = cc
      by_shape t unsupported e = refl

-- The call returned 0, and the member holds the number of the cell.
abbrev pub Holds : Numbers → Layout → Field → List ℕ → ℤ × Packet → Type 0
Holds numbers layout m s (code, p) =
    (code ≡ pos 0) × (member layout p m ≡ numbers.strtof s % 2 ^ 32)

module _ (numbers : Numbers) (before after : List FieldId) (g : FieldId) (cs ds : List (List ℕ))
    (s : List ℕ) (out : Packet) (m : Field) (same : length before ≡ length cs)
    (float : column_member g ≡ some m) (last : AllOther m after) where
  -- The packet of a structure is cleared, and then the columns are stored.
  stored :
      (layout k : Layout) (assign : FieldId → List ℕ → Packet → Packet) (t : ℕ)
      → some layout ≡ some k
      → IsAssign numbers layout assign
      → IsFloatMember layout m
      → Holds numbers k m s
          (pos 0, assign_columns assign (before ++ g ∷ after) (cs ++ s ∷ ds) (clear layout t out))
  stored layout k assign t e v at =
      let same_layout : layout ≡ k = cc in
      rw (← same_layout) (
        refl,
        columns-member numbers layout assign v before after g cs ds s m (clear layout t out) same
            float at last (clear_size layout t out),
      )

  wide : {layout k : Layout} → some layout ≡ some k → 0 < width_of k m → 0 < width_of layout m
  wide {layout} {k} e has =
      let same : layout ≡ k = cc in subst (λ l. 0 < width_of l m) (sym same) has

  parse_shape-Holds :
      (k : Layout) (t : ℕ) (o : Shape)
      → structure_of o ≡ some k
      → 0 < width_of k m
      → Holds numbers k m s (parse_shape numbers (before ++ g ∷ after) (cs ++ s ∷ ds) t out o)
  unfolding parse_shape
  parse_shape-Holds k t composite e has =
      stored _ k _ t e (composite-IsAssign numbers) (column_member-composite g m float (wide e has))
  parse_shape-Holds k t composite2 e has =
      stored _ k _ t e (composite2-IsAssign numbers)
        (column_member-composite2 g m float (wide e has))
  parse_shape-Holds k t composite64 e has =
      stored _ k _ t e (composite64-IsAssign numbers)
        (column_member-composite64 g m float (wide e has))
  parse_shape-Holds k t composite64_2 e has =
      stored _ k _ t e (composite64_2-IsAssign numbers)
        (column_member-composite64_2 g m float (wide e has))
  parse_shape-Holds k t unsupported e has = cc

  -- For every type that it supports, fs_replay_parse_packet returns 0, and the last column that is meant
  -- for a float of the type's structure, the velocities included, decides what the structure holds
  -- there: the bits of the number in its cell, whatever the other columns hold. The line has at most 64
  -- cells and fits its buffer.
  pub replay_parse_packet-member :
      (k : Layout)
      → AllCells (cs ++ s ∷ ds)
      → length (cs ++ s ∷ ds) ≤ max_columns
      → length (joined (cs ++ s ∷ ds)) ≤ 511
      → structure_of (shape_of (type_of_row (before ++ g ∷ after) (cs ++ s ∷ ds))) ≡ some k
      → 0 < width_of k m
      → Holds numbers k m s
          (replay_parse_packet numbers (before ++ g ∷ after) (joined (cs ++ s ∷ ds)) out)
  unfolding parse_cells
  replay_parse_packet-member k h fits short e has =
      let fields = before ++ g ∷ after in
      let cells = cs ++ s ∷ ds in
      subst (Holds numbers k m s)
        (sym (
          replay_parse_packet-joined numbers fields cells out h
            (omega (arith, length-append cs (s ∷ ds))) fits short))
        (parse_shape-Holds k (bits_of 8 (type_of_row fields cells))
          (shape_of (type_of_row fields cells)) e has)

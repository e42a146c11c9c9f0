-- ===== src/Saver/Replayed.antt =====
-- A saved packet, read back by the replay.
use trifecta_sdk.Common.{
  ℕ, ◌<◌, ◌≤◌, ◌≡◌, refl, sym, ap, ◌∙◌, true, some, List, [], ◌∷◌, ◌++◌, length, replicate,
  append-nil, arith,
}
use mathlib.Core.Path.{subst}
use trifecta_sdk.Common.Int.{pos}
use trifecta_sdk.Commands.Atoi.{atoi, skip_space, is_space}
use trifecta_sdk.Packet.Structs.{composite_packet, composite_packet_2}
use trifecta_sdk.Packet.Member.{Layout, Field, width_of}
use trifecta_sdk.Packet.{Packet, Family, family_of, packet_type}
use trifecta_sdk.Link.Message.{decimal}
use trifecta_sdk.Link.Decimal.{atoi-decimal}
use trifecta_sdk.Replay.Header.{
  FieldId, max_columns, parse_header, split_comma, c_string, find_field, same_text, normalize_token,
  tolower,
}
use trifecta_sdk.Replay.Columns.{column_member}
use trifecta_sdk.Replay.Row.{Numbers, replay_parse_packet, shape_of, type_of_row}
use trifecta_sdk.Replay.Table.{joined, AllCells}
use trifecta_sdk.Replay.Values.{Holds, structure_of, replay_parse_packet-member}
use trifecta_sdk.Saver.Lines.{Plain, cells_of-AllCells, length-cells_of, format_packet-whole}
use trifecta_sdk.Saver.Fields.{float_text, all_fit, AllWritten, find_cell, texts_of-AllWritten}
use trifecta_sdk.Saver.{Texts, Column, blank, header, columns_of, texts_of, cells_of, format_packet}

-- The fields that the replay takes the header's columns for.
abbrev saved_fields : List FieldId
saved_fields =
    FieldId.type
    ∷ FieldId.time
    ∷ FieldId.ax0
    ∷ FieldId.ay0
    ∷ FieldId.az0
    ∷ FieldId.gx0
    ∷ FieldId.gy0
    ∷ FieldId.gz0
    ∷ FieldId.ax1
    ∷ FieldId.ay1
    ∷ FieldId.az1
    ∷ FieldId.gx1
    ∷ FieldId.gy1
    ∷ FieldId.gz1
    ∷ FieldId.ax2
    ∷ FieldId.ay2
    ∷ FieldId.az2
    ∷ FieldId.gx2
    ∷ FieldId.gy2
    ∷ FieldId.gz2
    ∷ FieldId.q0
    ∷ FieldId.q1
    ∷ FieldId.q2
    ∷ FieldId.q3
    ∷ FieldId.magx
    ∷ FieldId.magy
    ∷ FieldId.magz
    ∷ FieldId.omegax0
    ∷ FieldId.omegy0
    ∷ FieldId.omegaz0
    ∷ FieldId.accx
    ∷ FieldId.accy
    ∷ FieldId.accz
    ∷ FieldId.vx
    ∷ FieldId.vy
    ∷ FieldId.vz
    ∷ FieldId.rx
    ∷ FieldId.ry
    ∷ FieldId.rz
    ∷ FieldId.no_field
    ∷ FieldId.no_field
    ∷ FieldId.no_field
    ∷ FieldId.devicemotion
    ∷ replicate 21 FieldId.no_field

parse_header-header : parse_header header ≡ saved_fields
unfolding parse_header split_comma c_string find_field same_text normalize_token skip_space is_space
    tolower
parse_header-header = refl

-- The packet types that are saved whole and that the replay supports, with their structure.
pub data IsReplayed : ℕ → Layout → Type 0 where
  first : (t : ℕ) → t ≤ 2 → IsReplayed t composite_packet
  second : (t : ℕ) → 8 ≤ t → t ≤ 10 → IsReplayed t composite_packet_2

-- What the saver and the replay make of such a type.
record Agrees (t : ℕ) (k : Layout) : Type 0 where
  columns : List Column
  saved : columns_of (family_of t) ≡ (k, columns)
  fit : all_fit k saved_fields (blank ∷ blank ∷ columns) ≡ true
  replayed : structure_of (shape_of (pos t)) ≡ some k

agrees : {t : ℕ} {k : Layout} → IsReplayed t k → Agrees t k
unfolding columns_of width_of family_of shape_of
agrees (first t small) = record {
  columns = (columns_of Family.composite).1;
  saved = ap columns_of (family small);
  fit = refl;
  replayed = ground arith;
}
  where
    family : t ≤ 2 → family_of t ≡ Family.composite
    family small = ground arith
agrees (second t large small) = record {
  columns = (columns_of Family.composite2).1;
  saved = ap columns_of (family large small);
  fit = refl;
  replayed = ground arith;
}
  where
    family : 8 ≤ t → t ≤ 10 → family_of t ≡ Family.composite2
    family large small = ground arith

module _ (texts : Texts) (plain : Plain texts) (numbers : Numbers) (p out : Packet) where
  written :
      (k : Layout) (a : Agrees (packet_type p) k)
      → AllWritten texts k p (blank ∷ blank ∷ a.columns) (cells_of texts p)
  unfolding cells_of
  written k a =
      subst
        (λ (lc : Layout × List Column). AllWritten texts k p a.columns (texts_of texts lc.0 p lc.1))
        (sym a.saved) (texts_of-AllWritten texts k p a.columns)

  typed : type_of_row saved_fields (cells_of texts p) ≡ pos (packet_type p)
  unfolding type_of_row cells_of
  typed =
      ap atoi (sym (append-nil (decimal (pos (packet_type p)))))
      ∙ atoi-decimal (pos (packet_type p)) 0

  -- What the saver writes of a packet of type 0 to 2 or 8 to 10 is read back by the replay: under the
  -- saver's own header, the column of a float that the packet's structure has, the velocities included,
  -- gives that member the bits of the number that strtof makes of the text, cut to 31 characters, that
  -- printf made of the same member, and the call returns 0. printf's texts of floats have no comma and no
  -- NUL, and the line fits the replay's buffer of 512.
  pub replay_parse_packet-format_packet :
      (k : Layout) (before after : List FieldId) (g : FieldId) (m : Field)
      → IsReplayed (packet_type p) k
      → parse_header header ≡ before ++ g ∷ after
      → column_member g ≡ some m
      → 0 < width_of k m
      → length (joined (cells_of texts p)) ≤ 511
      → (line : List ℕ) × ((format_packet texts p).1 ≡ line ++ 10 ∷ [])
        × Holds numbers k m
            (float_text texts k p m)
            (replay_parse_packet numbers (parse_header header) line out)
  replay_parse_packet-format_packet k before after g m kind at e has short =
      let a = agrees kind in
      let fields = before ++ g ∷ after in
      let cells = cells_of texts p in
      let at' : saved_fields ≡ fields = sym parse_header-header ∙ at in
      let found =
        find_cell texts k p before after g m (blank ∷ blank ∷ a.columns) cells e has
          (subst (λ fs. all_fit k fs (blank ∷ blank ∷ a.columns) ≡ true) at' a.fit) (written k a) in
      let around = found.cs ++ float_text texts k p m ∷ found.ds in
      let type_is : type_of_row fields around ≡ pos (packet_type p) =
        ap (type_of_row fields) (sym found.split)
        ∙ ap (λ fs. type_of_row fs cells) (sym at')
        ∙ typed in
      let held =
        replay_parse_packet-member numbers before after g found.cs found.ds (float_text texts k p m)
          out m found.same e found.last k
          (subst AllCells found.split (cells_of-AllCells texts plain p))
          (subst (λ cs. length cs ≤ max_columns) found.split
            (omega (arith, length-cells_of texts plain p)))
          (subst (λ cs. length (joined cs) ≤ 511) found.split short)
          (ap (λ t. structure_of (shape_of t)) type_is ∙ a.replayed) has in
      (
        joined cells,
        format_packet-whole texts plain p short,
        subst
            (λ fs.
              Holds numbers k m (float_text texts k p m)
                (replay_parse_packet numbers fs (joined cells) out))
            (sym at)
            (subst
              (λ cs.
                Holds numbers k m (float_text texts k p m)
                  (replay_parse_packet numbers fields (joined cs) out))
              (sym found.split) held),
      )

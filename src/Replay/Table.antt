-- ===== src/Replay/Table.antt =====
-- fs_replay_parse_packet on a line of cells.
use trifecta_sdk.Common.{
  ℕ, zero, suc, ◌%◌, ◌^◌, ◌≤◌, ◌<◌, ◌≡◌, ◌≢◌, refl, ap, ◌∙◌, false, none, some, List, [], ◌∷◌, ◌++◌,
  arith, length, take, take_all, ◌==◌,
}
use trifecta_sdk.Packet.{Packet, member}
use trifecta_sdk.Packet.Member.{Layout, Field, size_of}
use trifecta_sdk.Replay.Header.{FieldId, max_columns, c_string, split_comma}
use trifecta_sdk.Replay.Row.{Numbers, assign_columns, tokens}
use trifecta_sdk.Replay.Columns.{OtherThan, IsFloatMember, column_member}
use trifecta_sdk.Replay.Cells.{IsAssign}

-- Cells with commas between them.
abbrev pub joined : List (List ℕ) → List ℕ
joined [] = []
joined (cell ∷ []) = cell
joined (cell ∷ next ∷ cells) = cell ++ b',' ∷ joined (next ∷ cells)

-- A text without a comma and without a NUL.
abbrev pub IsCell : List ℕ → Type 0
IsCell [] = Unit
IsCell (c ∷ cs) = (c ≢ b',') × (c ≢ 0) × IsCell cs

abbrev pub AllCells : List (List ℕ) → Type 0
AllCells [] = Unit
AllCells (cell ∷ cells) = IsCell cell × AllCells cells

pub split_comma-cell : (cell : List ℕ) → IsCell cell → split_comma cell ≡ none
unfolding split_comma
split_comma-cell [] h = refl
split_comma-cell (c ∷ cs) h =
    let no : (c == b',') ≡ false = ground (arith, h.0) in
    rw (no, split_comma-cell cs h.2, split_comma) refl

pub split_comma-cells :
    (cell rest : List ℕ) → IsCell cell → split_comma (cell ++ b',' ∷ rest) ≡ some (cell, rest)
unfolding split_comma
split_comma-cells [] rest h = refl
split_comma-cells (c ∷ cs) rest h =
    let no : (c == b',') ≡ false = ground (arith, h.0) in
    rw (no, split_comma-cells cs rest h.2, split_comma) refl

-- A line is cut into its cells.
pub tokens-joined :
    (cells : List (List ℕ)) (n : ℕ)
    → AllCells cells
    → 0 < length cells
    → length cells ≤ n
    → tokens n (joined cells) ≡ cells
unfolding tokens
tokens-joined [] n h some_cells fits = absurd (omega arith)
tokens-joined (cell ∷ cells) zero h some_cells fits = absurd (omega arith)
tokens-joined (cell ∷ []) (suc n) h some_cells fits = rw (split_comma-cell cell h.0, tokens) refl
tokens-joined (cell ∷ next ∷ cells) (suc n) h some_cells fits =
    rw (split_comma-cells cell (joined (next ∷ cells)) h.0, tokens)
      (ap (◌∷◌ cell) (tokens-joined (next ∷ cells) n h.1 (omega arith) (omega arith)))

c_string-cell : (cell rest : List ℕ) → IsCell cell → c_string (cell ++ rest) ≡ cell ++ c_string rest
unfolding c_string
c_string-cell [] rest h = refl
c_string-cell (c ∷ cs) rest h =
    let no : (c == 0) ≡ false = ground (arith, h.1) in
    rw no (ap (◌∷◌ c) (c_string-cell cs rest h.2))

c_string-cell_end : (cell : List ℕ) → IsCell cell → c_string cell ≡ cell
unfolding c_string
c_string-cell_end [] h = refl
c_string-cell_end (c ∷ cs) h =
    let no : (c == 0) ≡ false = ground (arith, h.1) in rw no (ap (◌∷◌ c) (c_string-cell_end cs h.2))

pub c_string-joined :
    (cells : List (List ℕ)) → AllCells cells → c_string (joined cells) ≡ joined cells
unfolding c_string
c_string-joined [] h = refl
c_string-joined (cell ∷ []) h = c_string-cell_end cell h.0
c_string-joined (cell ∷ next ∷ cells) h =
    c_string-cell cell (b',' ∷ joined (next ∷ cells)) h.0
    ∙ ap (λ t. cell ++ b',' ∷ t) (c_string-joined (next ∷ cells) h.1)

-- The cells of a line that fits the local buffer.
pub cells_of :
    (cells : List (List ℕ))
    → AllCells cells
    → 0 < length cells
    → length cells ≤ max_columns
    → length (joined cells) ≤ 511
    → tokens max_columns (take 511 (c_string (joined cells))) ≡ cells
cells_of cells h some_cells fits short =
    ap (λ t. tokens max_columns (take 511 t)) (c_string-joined cells h)
    ∙ ap (tokens max_columns) (take_all 511 (joined cells) short)
    ∙ tokens-joined cells max_columns h some_cells fits

-- None of the columns is mapped to this member.
abbrev pub AllOther : Field → List FieldId → Type 0
AllOther m [] = Unit
AllOther m (f ∷ fields) = OtherThan m f × AllOther m fields

module _ (numbers : Numbers) (layout : Layout) (assign : FieldId → List ℕ → Packet → Packet)
    (v : IsAssign numbers layout assign) where
  columns_after :
      (m : Field) (fields : List FieldId) (cells : List (List ℕ)) (p : Packet)
      → IsFloatMember layout m
      → AllOther m fields
      → member layout (assign_columns assign fields cells p) m ≡ member layout p m
  unfolding assign_columns
  columns_after m [] cells p float h = refl
  columns_after m (f ∷ fields) [] p float h = refl
  columns_after m (f ∷ fields) (s ∷ cells) p float h =
      columns_after m fields cells (assign f s p) float h.1 ∙ v.keeps f m s p float h.0

  -- The last column that is mapped to a member decides it.
  pub columns-member :
      (before after : List FieldId) (g : FieldId) (cs ds : List (List ℕ)) (s : List ℕ) (m : Field)
      (p : Packet)
      → length before ≡ length cs
      → column_member g ≡ some m
      → IsFloatMember layout m
      → AllOther m after
      → size_of layout ≤ length p
      → member layout (assign_columns assign (before ++ g ∷ after) (cs ++ s ∷ ds) p) m
        ≡ numbers.strtof s % 2 ^ 32
  unfolding assign_columns
  columns-member [] after g [] ds s m p same e float h fits =
      columns_after m after ds (assign g s p) float h
      ∙ v.sets g m s p e (omega (arith, float.wide)) fits
  columns-member [] after g (c ∷ cs) ds s m p same e float h fits = absurd (omega arith)
  columns-member (f ∷ before) after g [] ds s m p same e float h fits = absurd (omega arith)
  columns-member (f ∷ before) after g (c ∷ cs) ds s m p same e float h fits =
      columns-member before after g cs ds s m (assign f c p) (omega arith) e float h
        (omega (arith, v.same_size f c p))

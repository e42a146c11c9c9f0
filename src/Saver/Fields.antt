-- ===== src/Saver/Fields.antt =====
-- The columns of a saved line against the fields that the replay takes its header for.
use trifecta_sdk.Common.{
  ℕ, suc, ◌<◌, ◌≡◌, refl, ap, ◌∙◌, Bool, true, false, Option, none, some, List, [], ◌∷◌, ◌++◌, ◌&&◌,
  ◌||◌, ◌==◌, not, length, arith,
}
use mathlib.Core.Path.{subst}
use trifecta_sdk.Packet.{Packet, member}
use trifecta_sdk.Packet.Member.{Layout, Field, number_of, offset_of, width_of}
use trifecta_sdk.Replay.Header.{FieldId}
use trifecta_sdk.Replay.Columns.{Apart, column_member}
use trifecta_sdk.Replay.Table.{AllOther}
use trifecta_sdk.Link.Message.{printed}
use trifecta_sdk.Saver.{
  Texts, Column, blank, motion, float_of, double_of, temperature_of, text_of, texts_of,
}

-- The text that a float member is saved as.
abbrev pub float_text : Texts → Layout → Packet → Field → List ℕ
float_text texts layout p m = printed 32 (texts.float (member layout p m))

same_offset :
    (layout : Layout) (n m : Field)
    → number_of n ≡ number_of m
    → offset_of layout n ≡ offset_of layout m
unfolding offset_of
same_offset [] n m e = refl
same_offset ((k, size) ∷ rest) n m e = rw (e, same_offset rest n m e) refl

same_width :
    (layout : Layout) (n m : Field)
    → number_of n ≡ number_of m
    → width_of layout n ≡ width_of layout m
unfolding width_of
same_width [] n m e = refl
same_width ((k, size) ∷ rest) n m e = rw (e, same_width rest n m e) refl

same_member :
    (layout : Layout) (p : Packet) (n m : Field)
    → number_of n ≡ number_of m
    → member layout p n ≡ member layout p m
unfolding member
same_member layout p n m e = rw (same_offset layout n m e, same_width layout n m e) refl

abbrev other : Field → Option Field → Bool
other m none = true
other m (some k) = not (number_of m == number_of k)

abbrev all_other : Field → List FieldId → Bool
all_other m [] = true
all_other m (f ∷ fields) = other m (column_member f) && all_other m fields

other-Apart : (m : Field) (o : Option Field) → other m o ≡ true → Apart m o
other-Apart m none e = tt
other-Apart m (some k) e = ground (arith, e)

both : (a b : Bool) → (a && b) ≡ true → (a ≡ true) × (b ≡ true)
both true b e = (refl, e)
both false b e = cc

all_other-AllOther :
    (m : Field) (fields : List FieldId) → all_other m fields ≡ true → AllOther m fields
all_other-AllOther m [] e = tt
all_other-AllOther m (f ∷ fields) e =
    let (first, rest) = both (other m (column_member f)) (all_other m fields) e in
    (other-Apart m (column_member f) first, all_other-AllOther m fields rest)

abbrev is_float : Field → Column → Bool
is_float m (float_of n) = number_of n == number_of m
is_float m _ = false

-- A field for a float that the structure has stands over the column of that float, and only once.
abbrev fits : Layout → Option Field → Column → List FieldId → Bool
fits layout none column fields = true
fits layout (some m) column fields =
    (width_of layout m == 0) || (is_float m column && all_other m fields)

abbrev pub all_fit : Layout → List FieldId → List Column → Bool
all_fit layout (f ∷ fields) (column ∷ columns) =
    fits layout (column_member f) column fields && all_fit layout fields columns
all_fit layout [] columns = true
all_fit layout (f ∷ fields) [] =
    elim (column_member f) [ none ↦ true | some m ↦ false ] && all_fit layout fields []

-- The cells hold the texts of these columns; nothing is said of blank ones.
abbrev pub AllWritten : Texts → Layout → Packet → List Column → List (List ℕ) → Type 0
AllWritten texts layout p [] cells = cells ≡ []
AllWritten texts layout p (column ∷ columns) [] = ⊥
AllWritten texts layout p (blank ∷ columns) (cell ∷ cells) = AllWritten texts layout p columns cells
AllWritten texts layout p (column ∷ columns) (cell ∷ cells) =
    (cell ≡ text_of texts layout p column) × AllWritten texts layout p columns cells

-- The cell of a column, what stands before and behind it, and what it holds.
pub record Found (texts : Texts) (layout : Layout) (p : Packet) (m : Field)
    (before after : List FieldId) (cells : List (List ℕ)) : Type 0 where
  pub cs : List (List ℕ)
  pub ds : List (List ℕ)
  pub split : cells ≡ cs ++ float_text texts layout p m ∷ ds
  pub same : length before ≡ length cs
  pub last : AllOther m after

none_left :
    (layout : Layout) (before after : List FieldId) (g : FieldId) (m : Field)
    → column_member g ≡ some m
    → all_fit layout (before ++ g ∷ after) [] ≡ true
    → ⊥
none_left layout [] after g m e h = absurd (no_more (column_member g) e h)
  where
    no_more :
        (o : Option Field)
        → o ≡ some m
        → (elim o [ none ↦ true | some m ↦ false ] && all_fit layout after []) ≡ true
        → ⊥
    no_more none e h = cc
    no_more (some k) e h = cc
none_left layout (f ∷ before) after g m e h =
    none_left layout before after g m e
      (both (elim (column_member f) [ none ↦ true | some m ↦ false ])
        (all_fit layout (before ++ g ∷ after) []) h).1

module _ (texts : Texts) (layout : Layout) (p : Packet) where
  tail_written :
      (column : Column) (columns : List Column) (cell : List ℕ) (cells : List (List ℕ))
      → AllWritten texts layout p (column ∷ columns) (cell ∷ cells)
      → AllWritten texts layout p columns cells
  tail_written blank columns cell cells w = w
  tail_written motion columns cell cells w = w.1
  tail_written (float_of n) columns cell cells w = w.1
  tail_written (double_of n) columns cell cells w = w.1
  tail_written (temperature_of i) columns cell cells w = w.1

  head_written :
      (m : Field) (column : Column) (columns : List Column) (cell : List ℕ) (cells : List (List ℕ))
      → is_float m column ≡ true
      → AllWritten texts layout p (column ∷ columns) (cell ∷ cells)
      → cell ≡ float_text texts layout p m
  unfolding text_of
  head_written m blank columns cell cells e w = cc
  head_written m motion columns cell cells e w = cc
  head_written m (float_of n) columns cell cells e w =
      let same : number_of n ≡ number_of m = ground (arith, e) in
      w.0 ∙ ap (λ x. printed 32 (texts.float x)) (same_member layout p n m same)
  head_written m (double_of n) columns cell cells e w = cc
  head_written m (temperature_of i) columns cell cells e w = cc

  fits-some :
      (m : Field) (o : Option Field) (column : Column) (fields : List FieldId)
      → o ≡ some m
      → 0 < width_of layout m
      → fits layout o column fields ≡ true
      → (is_float m column ≡ true) × (all_other m fields ≡ true)
  fits-some m none column fields e has h = cc
  fits-some m (some k) column fields e has h =
      let same : k ≡ m = cc in
      let h' : fits layout (some m) column fields ≡ true =
        subst (λ k. fits layout (some k) column fields ≡ true) same h in
      let wide : (width_of layout m == 0) ≡ false = ground (arith, has) in
      both (is_float m column) (all_other m fields) (rw wide at h')

  pub find_cell :
      (before after : List FieldId) (g : FieldId) (m : Field) (columns : List Column)
      (cells : List (List ℕ))
      → column_member g ≡ some m
      → 0 < width_of layout m
      → all_fit layout (before ++ g ∷ after) columns ≡ true
      → AllWritten texts layout p columns cells
      → Found texts layout p m before after cells
  find_cell before after g m [] cells e has h w = absurd (none_left layout before after g m e h)
  find_cell before after g m (column ∷ columns) [] e has h w = absurd w
  find_cell [] after g m (column ∷ columns) (cell ∷ cells) e has h w =
      let (here, later) =
        both (fits layout (column_member g) column after) (all_fit layout after columns) h in
      let (float, others) = fits-some m (column_member g) column after e has here in
      record {
        cs = [];
        ds = cells;
        split = ap (λ c. c ∷ cells) (head_written m column columns cell cells float w);
        same = refl;
        last = all_other-AllOther m after others;
      }
  find_cell (f ∷ before) after g m (column ∷ columns) (cell ∷ cells) e has h w =
      let (here, later) =
        both (fits layout (column_member f) column (before ++ g ∷ after))
          (all_fit layout (before ++ g ∷ after) columns) h in
      let rest =
        find_cell before after g m columns cells e has later
          (tail_written column columns cell cells w) in
      record {
        cs = cell ∷ rest.cs;
        ds = rest.ds;
        split = ap (◌∷◌ cell) rest.split;
        same = ap suc rest.same;
        last = rest.last;
      }

  pub texts_of-AllWritten :
      (columns : List Column) → AllWritten texts layout p columns (texts_of texts layout p columns)
  texts_of-AllWritten [] = refl
  texts_of-AllWritten (blank ∷ columns) = texts_of-AllWritten columns
  texts_of-AllWritten (motion ∷ columns) = (refl, texts_of-AllWritten columns)
  texts_of-AllWritten (float_of m ∷ columns) = (refl, texts_of-AllWritten columns)
  texts_of-AllWritten (double_of m ∷ columns) = (refl, texts_of-AllWritten columns)
  texts_of-AllWritten (temperature_of i ∷ columns) = (refl, texts_of-AllWritten columns)

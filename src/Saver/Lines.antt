-- ===== src/Saver/Lines.antt =====
-- The line of a packet, and its cells as the replay cuts them.
use trifecta_sdk.Common.{
  ℕ, zero, suc, ◌≤◌, ◌≡◌, refl, ap, ◌∙◌, List, [], ◌∷◌, ◌++◌, arith, length, take, take_all,
  length-append,
}
use trifecta_sdk.Common.Int.{ℤ, pos}
use trifecta_sdk.Packet.{Packet, Family, family_of, packet_type}
use trifecta_sdk.Packet.Member.{Layout}
use trifecta_sdk.Link.Message.{decimal, digits_of}
use trifecta_sdk.Link.Decimal.{AllDigits, digits_of-AllDigits}
use trifecta_sdk.Replay.Table.{joined, IsCell, AllCells}
use trifecta_sdk.Saver.{
  Texts, Column, blank, motion, float_of, double_of, temperature_of, columns_of, text_of, texts_of,
  cells_of, line_of, format_packet,
}

-- What printf's "%f" prints has no comma and no NUL.
pub record Plain (texts : Texts) : Type 0 where
  pub float : (n : ℕ) → IsCell (texts.float n)
  pub double : (n : ℕ) → IsCell (texts.double n)
  pub integer : (n : ℤ) → IsCell (texts.integer n)

digits-IsCell : (cs : List ℕ) → AllDigits cs → IsCell cs
digits-IsCell [] h = tt
digits-IsCell (c ∷ cs) h =
    ((λ e. omega (arith, h.0)), (λ e. omega (arith, h.0)), digits-IsCell cs h.1)

decimal-IsCell : (n : ℕ) → IsCell (decimal (pos n))
unfolding decimal
decimal-IsCell n = digits-IsCell (digits_of (suc n) n) (digits_of-AllDigits (suc n) n)

take-IsCell : (n : ℕ) (cs : List ℕ) → IsCell cs → IsCell (take n cs)
take-IsCell zero cs h = tt
take-IsCell (suc n) [] h = tt
take-IsCell (suc n) (c ∷ cs) h = (h.0, h.1, take-IsCell n cs h.2)

module _ (texts : Texts) (plain : Plain texts) where
  text_of-IsCell :
      (layout : Layout) (p : Packet) (column : Column) → IsCell (text_of texts layout p column)
  unfolding text_of
  text_of-IsCell layout p blank = tt
  text_of-IsCell layout p motion = take-IsCell 31 _ (decimal-IsCell _)
  text_of-IsCell layout p (float_of m) = take-IsCell 31 _ (plain.float _)
  text_of-IsCell layout p (double_of m) = take-IsCell 31 _ (plain.double _)
  text_of-IsCell layout p (temperature_of i) = take-IsCell 31 _ (plain.integer _)

  texts_of-AllCells :
      (layout : Layout) (p : Packet) (columns : List Column)
      → AllCells (texts_of texts layout p columns)
  texts_of-AllCells layout p [] = tt
  texts_of-AllCells layout p (column ∷ columns) =
      (text_of-IsCell layout p column, texts_of-AllCells layout p columns)

  pub cells_of-AllCells : (p : Packet) → AllCells (cells_of texts p)
  unfolding cells_of
  cells_of-AllCells p = (decimal-IsCell _, (decimal-IsCell _, texts_of-AllCells _ p _))

  length-texts_of :
      (layout : Layout) (p : Packet) (columns : List Column)
      → length (texts_of texts layout p columns) ≡ length columns
  length-texts_of layout p [] = refl
  length-texts_of layout p (column ∷ columns) = ap suc (length-texts_of layout p columns)

  length-columns_of : (f : Family) → length (columns_of f).1 ≡ 41
  unfolding columns_of
  length-columns_of Family.composite = refl
  length-columns_of Family.regular = refl
  length-columns_of Family.composite2 = refl
  length-columns_of Family.composite64 = refl
  length-columns_of Family.regular64 = refl
  length-columns_of Family.composite64_2 = refl
  length-columns_of Family.other = refl

  pub length-cells_of : (p : Packet) → length (cells_of texts p) ≡ 43
  unfolding cells_of
  length-cells_of p =
      let columns = columns_of (family_of (packet_type p)) in
      ap (λ n. suc (suc n))
        (length-texts_of columns.0 p columns.1 ∙ length-columns_of (family_of (packet_type p)))

  pub format_packet-whole :
      (p : Packet)
      → length (joined (cells_of texts p)) ≤ 511
      → (format_packet texts p).1 ≡ joined (cells_of texts p) ++ 10 ∷ []
  unfolding format_packet
  format_packet-whole p short =
      take_all 1023 (line_of texts p)
        (omega (arith, length-append (joined (cells_of texts p)) (10 ∷ [])))

-- ===== src/Replay/Rows.antt =====
-- fs_safe_fgets on a file that is made of lines.
use trifecta_sdk.Common.{
  ℕ, ◌+◌, ◌≤◌, ◌≡◌, ◌≢◌, sym, ap, ◌∙◌, false, List, [], ◌∷◌, ◌++◌, arith, ◌==◌, length, drop,
  lt→ltb, append-snoc, length-snoc, drop-append_length, append-nil, drop-add,
}
use trifecta_sdk.Common.Int.{pos}
use trifecta_sdk.Replay.Stream.{File, Line, fgets_from, safe_fgets}
use trifecta_sdk.Replay.{line_size}

-- The lines of a table, each with its line break.
abbrev pub written : List (List ℕ) → List ℕ
written [] = []
written (row ∷ rows) = row ++ 10 ∷ written rows

abbrev pub NoBreak : List ℕ → Type 0
NoBreak [] = Unit
NoBreak (c ∷ cs) = (c ≢ 10) × NoBreak cs

-- A line has no break of its own, and fits the buffer with its break and a NUL.
abbrev pub IsRow : List ℕ → Type 0
IsRow row = NoBreak row × (length row + 2 ≤ line_size)

abbrev pub AllRows : List (List ℕ) → Type 0
AllRows [] = Unit
AllRows (row ∷ rows) = IsRow row × AllRows rows

-- The lines that a file has ahead, and nothing behind them.
abbrev pub Ahead : File → List (List ℕ) → Type 0
Ahead fp rows = drop fp.offset fp.bytes ≡ written rows

-- What a call makes of a line.
abbrev pub line_of : List ℕ → Line
line_of row = record { code = pos 1; text = row ++ 10 ∷ []; used = length row + 1 }

-- The file behind that line.
abbrev pub behind : List ℕ → File → File
behind row fp = record fp { offset = fp.offset + (length row + 1) }

fgets_from-row :
    (row pre rest : List ℕ)
    → NoBreak row
    → length pre + length row + 2 ≤ line_size
    → fgets_from line_size (row ++ 10 ∷ rest) (length pre) pre ≡ line_of (pre ++ row)
unfolding fgets_from
fgets_from-row [] pre rest h fits = rw (lt→ltb (length pre) 511 (omega arith)) (
    let e : pre ≡ pre ++ [] = sym (append-nil pre) in
    ap (λ p. record { code = pos 1; text = p ++ 10 ∷ []; used = length p + 1 }) e)
fgets_from-row (c ∷ cs) pre rest h fits =
    let no : (c == 10) ≡ false = ground (arith, h.0) in
    rw (lt→ltb (length pre) 511 (omega arith), no, length-snoc pre c, append-snoc pre cs c)
      (fgets_from-row cs (pre ++ c ∷ []) rest h.1 (omega (arith, length-snoc pre c)))

safe_fgets-at :
    (fp : File) (bytes : List ℕ)
    → drop fp.offset fp.bytes ≡ bytes
    → safe_fgets line_size fp ≡ (
        let line = fgets_from line_size bytes 0 [] in
        (line, record fp { offset = fp.offset + line.used }))
unfolding safe_fgets
safe_fgets-at fp bytes h =
    ap
      (λ (bytes : List ℕ).
        let line = fgets_from line_size bytes 0 [] in
        let r : Line × File = (line, record fp { offset = fp.offset + line.used }) in r)
      h

-- The next line is read, with its break.
pub safe_fgets-row :
    (fp : File) (row : List ℕ) (rows : List (List ℕ))
    → Ahead fp (row ∷ rows)
    → IsRow row
    → safe_fgets line_size fp ≡ (line_of row, behind row fp)
safe_fgets-row fp row rows h ok =
    safe_fgets-at fp (row ++ 10 ∷ written rows) h
    ∙ ap
        (λ (line : Line).
          let r : Line × File = (line, record fp { offset = fp.offset + line.used }) in r)
        (fgets_from-row row [] (written rows) ok.0 (omega (arith, ok.1)))

-- Then the file has the other lines ahead.
pub behind-Ahead :
    (fp : File) (row : List ℕ) (rows : List (List ℕ))
    → Ahead fp (row ∷ rows)
    → Ahead (behind row fp) rows
behind-Ahead fp row rows h =
    drop-add fp.offset (length row + 1) fp.bytes ∙ ap (drop (length row + 1)) h ∙ drop-row
  where
    drop-row : drop (length row + 1) (row ++ 10 ∷ written rows) ≡ written rows
    drop-row = drop-add (length row) 1 _ ∙ ap (drop 1) (drop-append_length row (10 ∷ written rows))

-- At the end of the file the call returns 0 and consumes nothing.
pub safe_fgets-end :
    (fp : File)
    → Ahead fp []
    → safe_fgets line_size fp ≡ (record { code = pos 0; text = []; used = 0 }, fp)
unfolding fgets_from
safe_fgets-end fp h =
    let none_used : fp.offset + 0 ≡ fp.offset = omega arith in
    safe_fgets-at fp [] h
    ∙ ap
        (λ (n : ℕ).
          let r : Line × File =
            (record { code = pos 0; text = []; used = 0 }, record fp { offset = n }) in
          r)
        none_used

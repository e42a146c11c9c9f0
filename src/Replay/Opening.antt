-- ===== src/Replay/Opening.antt =====
-- fs_replay_open: the index of the lines.
use mathlib.Core.Path.{subst}
use trifecta_sdk.Common.{
  ℕ, zero, suc, ◌+◌, ◌*◌, ◌%◌, ◌^◌, ◌≤◌, ◌<◌, ◌≡◌, ◌≢◌, refl, sym, ap, ◌∙◌, inl, inr, Bool, true,
  false, Option, none, some, List, [], ◌∷◌, ◌++◌, arith, length, drop, get_or, drop-add, ◌==◌, u32,
  Bool-cases, if◌then◌else◌, get_or-append_here, length-append,
}
use native.Mathlib.Decide.{ℕ_discrete}
use trifecta_sdk.Common.Int.{ℤ, pos, negsuc, is_pos}
use trifecta_sdk.Replay.Stream.{File, Line}
use trifecta_sdk.Replay.Rows.{
  Ahead, AllRows, IsRow, written, behind, safe_fgets-row, behind-Ahead, safe_fgets-end,
}
use trifecta_sdk.Replay.{Index, index_line, index_lines}

block_exact :
    (i block N : ℕ) → 0 < N → i ≤ block * N → block * N < i + N → i % N ≡ 0 → block * N ≡ i
block_exact i block N h a b m = grind arith

not_multiple : (i b N : ℕ) → 0 < N → i % N ≢ 0 → b * N ≢ i
not_multiple i b N h m = grind arith

block_eq : (b block N : ℕ) → 0 < N → b * N ≡ block * N → b ≡ block
block_eq b block N h e = grind arith

below_block : (b block N : ℕ) → b * N < block * N → b < block
below_block b block N h = grind arith

blocks_le : (block i N : ℕ) → 0 < N → block * N ≡ i → block ≤ i
blocks_le block i N h e = grind arith

next_block : (block N : ℕ) → (block + 1) * N ≡ block * N + N
next_block block N = grind arith

multiple_le : (i b block N : ℕ) → 0 < N → block * N ≡ i → b * N < i + 1 → b * N ≢ i → b < block
multiple_le i b block N h e lt ne = below_block b block N (omega arith)

get_or-append_left :
    (xs ys : List ℕ) (i d : ℕ) → i < length xs → get_or (xs ++ ys) i d ≡ get_or xs i d
get_or-append_left [] ys i d h = elim h [ ]
get_or-append_left (x ∷ xs) ys zero d h = refl
get_or-append_left (x ∷ xs) ys (suc i) d h = get_or-append_left xs ys i d (omega arith)

-- The loop has read `i` of the lines.
pub record HasIndexed (N : ℕ) (bytes : List ℕ) (rows : List (List ℕ)) (i : ℕ) (s : Index)
    : Type 0 where
  pub contents : s.fp.bytes ≡ bytes
  pub ahead : Ahead s.fp (drop i rows)
  pub here : s.at ≡ s.fp.offset
  pub lines : s.line ≡ i
  pub enough : i ≤ s.block * N
  pub needed : s.block * N < i + N
  pub stored : length s.offsets ≡ s.block
  pub marks : (b : ℕ) → b * N < i → drop (get_or s.offsets b 0) bytes ≡ written (drop (b * N) rows)

-- What a round makes of the variables, for a line behind which the file is `fp`.
abbrev after_line : ℕ → File → Index → ℕ → Index
after_line N fp s cap = record {
  fp = fp;
  at = fp.offset;
  line = u32 (s.line + 1);
  block = if s.line % N == 0 then u32 (s.block + 1) else s.block;
  cap = cap;
  offsets = if s.line % N == 0 then s.offsets ++ s.at ∷ [] else s.offsets;
}

module _ (malloc : ℕ → Bool) (all : (n : ℕ) → malloc n ≡ true) where
  index_line-some :
      (N : ℕ) (fp : File) (s : Index)
      → (cap : ℕ) × (index_line malloc N fp s ≡ some (after_line N fp s cap))
  unfolding index_line
  index_line-some N fp s = elim (Bool-cases (s.line % N == 0)) [
    | inr miss ↦ (s.cap, rw miss refl)
    | inl hit ↦ elim (Bool-cases (s.block == s.cap)) [
      | inl full ↦ (u32 (s.cap * 2), rw (hit, full, all (u32 (s.cap * 2) * 8)) refl)
      | inr room ↦ (s.cap, rw (hit, room) refl)
    ]
  ]

module _ (N : ℕ) (positive : 0 < N) (bytes : List ℕ) (rows : List (List ℕ)) where
  -- The offset that a round appends is that of its line, and the others are as before.
  marks-append :
      (i : ℕ) (s : Index)
      → HasIndexed N bytes rows i s
      → s.block * N ≡ i
      → (b : ℕ) → b * N < i + 1
      → drop (get_or (s.offsets ++ s.at ∷ []) b 0) bytes ≡ written (drop (b * N) rows)
  marks-append i s v exact b lt = elim (ℕ_discrete (b * N) i) [
    | yes last ↦
        let same : b ≡ length s.offsets =
          block_eq b s.block N positive (last ∙ sym exact) ∙ sym v.stored in
        ap (λ n. drop (get_or (s.offsets ++ s.at ∷ []) n 0) bytes) same
        ∙ ap (λ n. drop n bytes) (get_or-append_here s.offsets [] s.at 0)
        ∙ ap (λ n. drop n bytes) v.here
        ∙ ap (drop s.fp.offset) (sym v.contents)
        ∙ v.ahead
        ∙ ap (λ n. written (drop n rows)) (sym last)
    | no earlier ↦
        let inside = multiple_le i b s.block N positive exact lt earlier in
        ap (λ n. drop n bytes)
          (get_or-append_left s.offsets (s.at ∷ []) b 0 (omega (arith, v.stored, inside)))
        ∙ v.marks b (omega arith)
  ]

  behind-drop :
      (i : ℕ) (row : List ℕ) (rest : List (List ℕ)) (fp : File)
      → drop i rows ≡ row ∷ rest
      → Ahead fp (drop i rows)
      → Ahead (behind row fp) (drop (i + 1) rows)
  behind-drop i row rest fp e ahead =
      behind-Ahead fp row rest (ahead ∙ ap written e)
      ∙ ap written (ap (drop 1) (sym e) ∙ sym (drop-add i 1 rows))

  after_line-HasIndexed :
      (i cap : ℕ) (row : List ℕ) (rest : List (List ℕ)) (s : Index)
      → i + 1 < 2 ^ 31
      → drop i rows ≡ row ∷ rest
      → HasIndexed N bytes rows i s
      → HasIndexed N bytes rows (i + 1) (after_line N (behind row s.fp) s cap)
  after_line-HasIndexed i cap row rest s few e v = elim (Bool-cases (s.line % N == 0)) [
    | inl hit ↦
        let exact =
          block_exact i s.block N positive v.enough v.needed (ground (arith, hit, v.lines)) in
        let fits : u32 (s.block + 1) ≡ s.block + 1 =
          omega (arith, blocks_le s.block i N positive exact) in
        rw (hit, fits)
          (record {
            contents = v.contents;
            ahead = behind-drop i row rest s.fp e v.ahead;
            here = refl;
            lines = ground (arith, v.lines);
            enough = omega (arith, next_block s.block N, exact);
            needed = omega (arith, next_block s.block N, exact);
            stored = omega (arith, length-append s.offsets (s.at ∷ []), v.stored);
            marks = marks-append i s v exact;
          })
    | inr miss ↦ rw miss (record {
      contents = v.contents;
      ahead = behind-drop i row rest s.fp e v.ahead;
      here = refl;
      lines = ground (arith, v.lines);
      enough = ground (arith, v.lines, v.enough, not_multiple i s.block N positive);
      needed = ground (arith, v.needed);
      stored = v.stored;
      marks = λ b h. v.marks b (ground (arith, v.lines, h, not_multiple i b N positive));
    })
  ]

-- The loop came to its end with all lines indexed.
pub record HasEnded (N : ℕ) (bytes : List ℕ) (rows : List (List ℕ)) (res : Option (ℤ × Index))
    : Type 0 where
  pub last : Index
  pub result : res ≡ some (pos 0, last)
  pub indexed : HasIndexed N bytes rows (length rows) last

module _ (malloc : ℕ → Bool) (all : (n : ℕ) → malloc n ≡ true) (N : ℕ) (positive : 0 < N)
    (bytes : List ℕ) (rows : List (List ℕ)) where
  index_lines-end :
      (fuel : ℕ) (s : Index) → Ahead s.fp [] → index_lines malloc N (suc fuel) s ≡ some (pos 0, s)
  unfolding index_lines
  index_lines-end fuel s ahead =
      ap
        (λ (read : Line × File).
          let res : Option (ℤ × Index) = elim (is_pos read.0.code) [
            | true ↦ elim (index_line malloc N read.1 s) [
              | none ↦ some (negsuc 5, record s { fp = read.1 })
              | some s' ↦ index_lines malloc N fuel s'
            ]
            | false ↦ some (pos 0, record s { fp = read.1 })
          ] in
          res)
        (safe_fgets-end s.fp ahead)

  index_lines-row :
      (fuel cap : ℕ) (row : List ℕ) (rest : List (List ℕ)) (s : Index)
      → Ahead s.fp (row ∷ rest)
      → IsRow row
      → index_line malloc N (behind row s.fp) s ≡ some (after_line N (behind row s.fp) s cap)
      → index_lines malloc N (suc fuel) s
        ≡ index_lines malloc N fuel (after_line N (behind row s.fp) s cap)
  unfolding index_lines
  index_lines-row fuel cap row rest s ahead ok e =
      ap
        (λ (read : Line × File).
          let res : Option (ℤ × Index) = elim (is_pos read.0.code) [
            | true ↦ elim (index_line malloc N read.1 s) [
              | none ↦ some (negsuc 5, record s { fp = read.1 })
              | some s' ↦ index_lines malloc N fuel s'
            ]
            | false ↦ some (pos 0, record s { fp = read.1 })
          ] in
          res)
        (safe_fgets-row s.fp row rest ahead ok)
      ∙ ap
          (λ (next : Option Index).
            let res : Option (ℤ × Index) = elim next [
              | none ↦ some (negsuc 5, record s { fp = behind row s.fp })
              | some s' ↦ index_lines malloc N fuel s'
            ] in
            res)
          e

  pub index_lines-HasEnded :
      (todo : List (List ℕ)) (i fuel : ℕ) (s : Index)
      → drop i rows ≡ todo
      → i + length todo ≡ length rows
      → AllRows todo
      → length todo < fuel
      → length rows < 2 ^ 31
      → HasIndexed N bytes rows i s
      → HasEnded N bytes rows (index_lines malloc N fuel s)
  index_lines-HasEnded todo i zero s e total ok lt few v = absurd (omega arith)
  index_lines-HasEnded [] i (suc fuel) s e total ok lt few v = record {
    last = s;
    result = index_lines-end fuel s (v.ahead ∙ ap written e);
    indexed =
        let done : i ≡ length rows = omega arith in subst (λ i. HasIndexed N bytes rows i s) done v;
  }
  index_lines-HasEnded (row ∷ rest) i (suc fuel) s e total ok lt few v =
      let (cap, next) = index_line-some malloc all N (behind row s.fp) s in
      subst (HasEnded N bytes rows)
        (sym (index_lines-row fuel cap row rest s (v.ahead ∙ ap written e) ok.0 next))
        (index_lines-HasEnded rest (i + 1) fuel (after_line N (behind row s.fp) s cap)
          (drop-add i 1 rows ∙ ap (drop 1) e) (omega arith) ok.1 (omega arith) few
          (after_line-HasIndexed N positive bytes rows i cap row rest s (omega arith) e v))
